-- ===== src/Program.antt =====
-- crafty_server_watcher/__main__.py, `main` and `_run` as a whole: from the command line to the tasks.
pub mod Pending
pub mod Beginning
pub mod Generations
pub mod Flapping
use crafty_server_watcher.Common.{
  ℕ, String, Bool, true, Option, none, some, is_some, List, [], ◌∷◌, ℤ,
}
use crafty_server_watcher.Config.{CraftyConfig, AppConfig}
use crafty_server_watcher.Values.{Python}
use crafty_server_watcher.Loading.{Loading, loaded, config_error}
use crafty_server_watcher.ConfigLoader.{ConfigFile, load_config}
use crafty_server_watcher.CraftyApi.{CraftyApiClient, Library}
use crafty_server_watcher.Logging.{Root, new_root, basic_config, setup_logging}
use crafty_server_watcher.StateStore.{File, StateStore, Raising, returned, raised}
use crafty_server_watcher.Startup.{Components, Started, exited, crashed, running, start_up}
use crafty_server_watcher.Process.{Process}
use crafty_server_watcher.Process.Start.{start_process}

-- What `_parse_args` gives: the path of the configuration, or the end of the process, after an error of usage
-- or for `--help` and `--version`.
pub data Parsed : Type 0 where
  config : String → Parsed
  exits : ℕ → Parsed

-- What an option of the command line does: it stores its argument, for which there is a default, or it prints
-- the version.
pub data Action : Type 0 where
  store : String → Action
  version : String → Action

pub record ArgumentParser : Type 0 where
  pub prog : String
  pub description : String
  pub options : List (List String × Action)

abbrev pub default_config_path : String
default_config_path = "/etc/crafty-server-watcher/config.yaml"

-- The parser that `_parse_args` makes. The option `--config` has the name `config` in the result.
abbrev pub argument_parser : ArgumentParser
argument_parser = record {
  prog = "crafty-server-watcher";
  description = "Auto-hibernate and wake Minecraft servers via Crafty API v2.";
  options =
      ("-c" ∷ "--config" ∷ [], store default_config_path)
      ∷ ("-V" ∷ "--version" ∷ [], version "%(prog)s 1.2.0")
      ∷ [];
}

-- What one start of the watcher meets: the command line, and argparse as it reads it; the files, the environment,
-- the libraries; whether the log file can be made; the clocks when the tasks begin, and whether a signal came
-- before that.
pub record Launch : Type 0 where
  pub arguments : List String
  pub argparse : ArgumentParser → List String → Parsed
  pub files : String → ConfigFile
  pub python : Python
  pub environment : String → String
  pub library : Library
  pub connect : CraftyConfig → CraftyApiClient
  pub upper : String → String
  pub casefold : String → String
  pub log_opened : Bool
  pub monotonic : ℤ
  pub wall : ℤ
  pub told_to_end : Bool
  pub told_to_reload : Bool

-- How `main` ends before its tasks run, by `sys.exit` or by another exception, or the tasks as they begin, with
-- the logging and whether there is a webhook.
pub data Outcome : Type 0 where
  exit : ℕ → Outcome
  exception : Outcome
  serving : Root → Bool → Process → Outcome

-- `StateStore(cfg.state.file)`, if one is configured, with what the file holds.
abbrev pub store_of : Option String → File → Option StateStore
store_of none file = none
store_of (some path) file = some (record { enabled = true; file = file; temp = none })

-- The tasks that begin with the components.
abbrev pub start_tasks : Launch → File → Components → Raising Process
start_tasks g file c =
    start_process g.casefold g.python.int_of g.monotonic g.wall (store_of c.state_file file) c
      g.told_to_end g.told_to_reload

unfoldable pub by_process : Root → Bool → Raising Process → Outcome
by_process root webhook (returned p) = serving root webhook p
by_process root webhook raised = exception

unfoldable pub by_started : Launch → File → Root → Started → Outcome
unfolding by_process
by_started g file root exited = exit 1
by_started g file root crashed = exception
by_started g file root (running c) = by_process root (is_some c.webhook) (start_tasks g file c)

unfoldable pub by_root : Launch → File → ConfigFile → Option Root → Outcome
unfolding by_started
by_root g file source none = exception
by_root g file source (some root) =
    by_started g file root (start_up g.python g.environment g.library g.connect source)

-- `_run`: the configuration is loaded, the logging is set up by it, and the components are built from it.
unfoldable pub by_loading : Launch → File → ConfigFile → Loading AppConfig → Outcome
unfolding by_root
by_loading g file source (loaded cfg) =
    by_root g file source (setup_logging g.upper g.log_opened cfg.logging (basic_config new_root))
by_loading g file source config_error = exit 1
by_loading g file source Loading.raised = exception

unfoldable pub by_arguments : Launch → File → Parsed → Outcome
unfolding by_loading
by_arguments g file (config path) =
    by_loading g file (g.files path) (load_config g.python g.environment (g.files path))
by_arguments g file (exits n) = exit n

-- `_parse_args`
abbrev pub parse_args : Launch → Parsed
parse_args g = g.argparse argument_parser g.arguments

-- `main`, on the file that the configuration names for the state.
unfoldable pub main : Launch → File → Outcome
unfolding by_arguments
main g file = by_arguments g file (parse_args g)
