-- ===== src/Program/Beginning.antt =====
-- crafty_server_watcher/__main__.py: what lies behind a start that gets to its tasks.
use crafty_server_watcher.Common.{◌≡◌, refl, String, Bool, Option, none, some, is_some}
use crafty_server_watcher.Config.{AppConfig}
use crafty_server_watcher.Loading.{Loading, loaded, config_error}
use crafty_server_watcher.ConfigLoader.{ConfigFile, load_config}
use crafty_server_watcher.Logging.{Root, new_root, basic_config, setup_logging}
use crafty_server_watcher.StateStore.{File, Raising, returned, raised}
use crafty_server_watcher.Startup.{Components, Started, exited, crashed, running, start_up}
use crafty_server_watcher.Process.{Process}
use crafty_server_watcher.Program.{
  Parsed, config, exits, Launch, serving, start_tasks, by_process, by_started, by_root, by_loading,
  by_arguments, main, parse_args,
}

-- The components that a start builds, and the tasks that it begins with them.
pub record Begins (g : Launch) (file : File) (source : ConfigFile) (p : Process) : Type 0 where
  pub components : Components
  pub built : start_up g.python g.environment g.library g.connect source ≡ running components
  pub begun : start_tasks g file components ≡ returned p

module _ (g : Launch) (file : File) (root' : Root) (webhook' : Bool) (p : Process) where
  by_process-serving :
      (root : Root) (webhook : Bool) (r : Raising Process)
      → by_process root webhook r ≡ serving root' webhook' p
      → r ≡ returned p
  unfolding by_process
  by_process-serving root webhook (returned q) h = cc
  by_process-serving root webhook raised h = cc

  by_started-Begins :
      (source : ConfigFile) (root : Root) (s : Started)
      → start_up g.python g.environment g.library g.connect source ≡ s
      → by_started g file root s ≡ serving root' webhook' p
      → Begins g file source p
  unfolding by_started
  by_started-Begins source root exited e h = cc
  by_started-Begins source root crashed e h = cc
  by_started-Begins source root (running c) e h = record {
    components = c;
    built = e;
    begun = by_process-serving root (is_some c.webhook) (start_tasks g file c) h;
  }

  by_root-Begins :
      (source : ConfigFile) (o : Option Root)
      → by_root g file source o ≡ serving root' webhook' p
      → Begins g file source p
  unfolding by_root
  by_root-Begins source none h = cc
  by_root-Begins source (some root) h = by_started-Begins source root _ refl h

  by_loading-Begins :
      (source : ConfigFile) (l : Loading AppConfig)
      → by_loading g file source l ≡ serving root' webhook' p
      → Begins g file source p
  unfolding by_loading
  by_loading-Begins source (loaded cfg) h =
      by_root-Begins source (setup_logging g.upper g.log_opened cfg.logging (basic_config new_root))
        h
  by_loading-Begins source config_error h = cc
  by_loading-Begins source Loading.raised h = cc

  by_arguments-Begins :
      (a : Parsed)
      → by_arguments g file a ≡ serving root' webhook' p
      → (path : String) × (a ≡ config path) × Begins g file (g.files path) p
  unfolding by_arguments
  by_arguments-Begins (config path) h = (
    path,
    refl,
    by_loading-Begins (g.files path) (load_config g.python g.environment (g.files path)) h,
  )
  by_arguments-Begins (exits n) h = cc

  -- A start that gets to its tasks has been given a file, has built its components from it, and begins its tasks with
  -- them.
  pub main-Begins :
      main g file ≡ serving root' webhook' p
      → (path : String) × (parse_args g ≡ config path) × Begins g file (g.files path) p
  unfolding main
  main-Begins h = by_arguments-Begins (parse_args g) h
