-- ===== src/Program/Generations.antt =====
-- crafty_server_watcher/__main__.py: starts of the watcher that follow one another on one state file.
use crafty_server_watcher.Common.{◌≡◌, refl, String, Bool, some, List, [], ◌∷◌, map, ℤ, is_some}
use crafty_server_watcher.Config.{AppConfig}
use crafty_server_watcher.Loading.{loaded}
use crafty_server_watcher.ConfigLoader.{load_config}
use crafty_server_watcher.Logging.{Root, new_root, basic_config, setup_logging}
use crafty_server_watcher.StateStore.{File, missing, holds, returned, payload}
use crafty_server_watcher.Startup.{Components, running, start_up}
use crafty_server_watcher.Startup.Ready.{running-IsReady}
use crafty_server_watcher.IdleMonitor.{Watched}
use crafty_server_watcher.IdleMonitor.Round.Sanity.{AllSane}
use crafty_server_watcher.Service.{pending_restore}
use crafty_server_watcher.Service.Restart.{SaneMachines}
use crafty_server_watcher.Process.{Process}
use crafty_server_watcher.Process.Tasks.{named_machine, Label, run_process}
use crafty_server_watcher.Process.Start.{start_process}
use crafty_server_watcher.Process.Sharing.{IsSaneProcess}
use crafty_server_watcher.Process.Sanity.{run_process-IsSane}
use crafty_server_watcher.Program.{
  config, Launch, serving, store_of, start_tasks, by_process, by_started, by_root, by_loading,
  by_arguments, main, parse_args,
}
use crafty_server_watcher.Program.Beginning.{main-Begins}
use crafty_server_watcher.Program.Pending.{IsSaneFile, store-AllSane, restored-IsSane}

-- What the state file may hold when the watcher is started: nothing, or what a run of an earlier start saved
-- between two of its turns, whatever its clocks read.
pub data HasHistory : File → Type 0 where
  first : HasHistory missing
  saved :
      {file : File} (g : Launch) (root : Root) (webhook : Bool) (p : Process) (labels : List Label)
      (monotonic wall : ℤ)
      → HasHistory file
      → main g file ≡ serving root webhook p
      → HasHistory (
          holds (
            payload monotonic wall
              (map named_machine (run_process webhook g.casefold labels p).servers)))

named-SaneMachines :
    (servers : List (String × Watched)) → AllSane servers → SaneMachines (map named_machine servers)
named-SaneMachines [] h = tt
named-SaneMachines ((name, w) ∷ rest) (q, h) = (q.machine, named-SaneMachines rest h)

main-IsSane :
    (g : Launch) (file : File) (root : Root) (webhook : Bool) (p : Process)
    → IsSaneFile file
    → main g file ≡ serving root webhook p
    → IsSaneProcess p
unfolding start_process
main-IsSane g file root webhook p f h =
    let (path, given, begins) = main-Begins g file root webhook p h in
    let c = begins.components in
    let ready =
      running-IsReady g.python g.environment g.library g.connect (g.files path) c begins.built in
    restored-IsSane g c c.state_file file
      (pending_restore g.python.int_of g.monotonic g.wall (store_of c.state_file file)) p ready
      (λ pending e.
        store-AllSane g.python.int_of g.monotonic g.wall c.state_file file c.machines pending f
          ready.fresh e)
      begins.begun

history-IsSaneFile : {file : File} → HasHistory file → IsSaneFile file
history-IsSaneFile first = tt
history-IsSaneFile (saved {file = before} g root webhook p labels monotonic wall h e) =
    let begun = main-IsSane g before root webhook p (history-IsSaneFile h) e in
    let reached = run_process-IsSane webhook g.casefold labels p begun in
    (monotonic, wall, _, refl, named-SaneMachines _ reached.of_servers)

-- Whatever its earlier runs on the same state file met, between which of their turns the file was saved last, and
-- whatever the clocks read at each start: when the watcher is started and gets to its tasks, then in every state that these
-- reach, in every order of their turns, all the machines are sane, as the monitor and both proxies see them.
pub program_stays_sane :
    (g : Launch) (file : File) (root : Root) (webhook : Bool) (p : Process) (labels : List Label)
    → HasHistory file
    → main g file ≡ serving root webhook p
    → IsSaneProcess (run_process webhook g.casefold labels p)
program_stays_sane g file root webhook p labels h e =
    run_process-IsSane webhook g.casefold labels p
      (main-IsSane g file root webhook p (history-IsSaneFile h) e)

-- And it does get to its tasks where the file can be loaded, the logging set up, and Crafty reached.
pub main_serves :
    (g : Launch) (file : File) (path : String) (cfg : AppConfig) (root : Root) (c : Components)
    (p : Process)
    → parse_args g ≡ config path
    → load_config g.python g.environment (g.files path) ≡ loaded cfg
    → setup_logging g.upper g.log_opened cfg.logging (basic_config new_root) ≡ some root
    → start_up g.python g.environment g.library g.connect (g.files path) ≡ running c
    → start_tasks g file c ≡ returned p
    → main g file ≡ serving root (is_some c.webhook) p
unfolding main by_arguments by_loading by_root by_started by_process
main_serves g file path cfg root c p a l s u q = simp (a, l, s, u, q)
