-- ===== src/Examples/Program.antt =====
-- The watcher is started, saves its machines, and is started again.
use crafty_server_watcher.Common.{
  ◌≡◌, refl, String, true, false, is_some, none, some, List, [], ◌∷◌, map, pos, Option, arith,
}
use crafty_server_watcher.Json.{obj}
use crafty_server_watcher.ConfigLoader.{parsed}
use crafty_server_watcher.Loading.{loaded}
use crafty_server_watcher.StateStore.{File, missing, holds, payload, returned}
use crafty_server_watcher.Logging.{
  Root, stderr, rotating_file, log_format, log_date_format, new_root, attribute, setup_logging,
  basic_config,
}
use crafty_server_watcher.IdleMonitor.Round.{replied}
use crafty_server_watcher.Proxy.Schedule.{stop_event, begin, bind_answer, login}
use crafty_server_watcher.Service.{pending_restore}
use crafty_server_watcher.Process.{Process}
use crafty_server_watcher.Process.Tasks.{
  Label, monitor_turn, reloader_turn, sighup, slot_move, named_machine, run_process,
}
use crafty_server_watcher.Process.Start.{begin_process, when_restored, start_process}
use crafty_server_watcher.Process.Sharing.{IsSaneProcess}
use crafty_server_watcher.Program.{Launch, config, main, serving, store_of}
use crafty_server_watcher.Program.Pending.{start_process-missing}
use crafty_server_watcher.Program.Generations.{first, saved, program_stays_sane, main_serves}
use crafty_server_watcher.Program.Flapping.{flap_guard_never_acts}
use crafty_server_watcher.ServerState.Timing.{is_flapping}
use crafty_server_watcher.Config.{AppConfig}
use crafty_server_watcher.Reload.{find, apply, reload_machine, reload_machines}
use crafty_server_watcher.IdleMonitor.{Watched}
use crafty_server_watcher.ServerState.{new}
use crafty_server_watcher.Startup.{build, machines_of, machine_of}
use crafty_server_watcher.Service.{to_servers, each, watched_from}
use crafty_server_watcher.Process.{is_over, set_servers}
use crafty_server_watcher.Process.Tasks.{
  take_turn, step_process, reloader_at, reload_with, reload_process, put_machines,
}
use crafty_server_watcher.Examples.Fixture.{at, up_empty}
use crafty_server_watcher.Examples.Loading.{
  python, environment, small_file, configuration, server, file_loads, logging_of,
}
use crafty_server_watcher.Examples.Exchanges.{controller}
use crafty_server_watcher.Examples.Starting.{components, crafty, started_up, no_state_file}

abbrev launch : Launch
launch = record {
  arguments = "-c" ∷ "config.yaml" ∷ [];
  argparse = λ parser arguments. config "config.yaml";
  files = λ path. parsed (obj small_file);
  python = python;
  environment = environment;
  library = crafty;
  connect = λ cfg. controller;
  upper = λ s. s;
  casefold = λ s. s;
  log_opened = true;
  monotonic = at 10;
  wall = at 9060;
  told_to_end = false;
  told_to_reload = false;
}

abbrev root : Root
root = record {
  level = 20;
  handlers =
      record {
        sink = stderr;
        level = 0;
        format = "%(asctime)s %(levelname)-5s %(message)s";
        date_format = none;
      }
      ∷ record {
        sink = rotating_file "/var/log/crafty-server-watcher/service.log" (pos 10485760) (pos 5);
        level = 20;
        format = log_format;
        date_format = some log_date_format;
      }
      ∷ record {
        sink = stderr;
        level = 20;
        format = log_format;
        date_format = some log_date_format;
      }
      ∷ [];
}

logs : setup_logging (λ s. s) true configuration.logging (basic_config new_root) ≡ some root
unfolding setup_logging basic_config attribute
logs = rw logging_of cc

abbrev as_begun : Process
as_begun = begin_process (λ s. s) components false false []

first_start : main launch missing ≡ serving root (is_some components.webhook) as_begun
first_start =
    main_serves launch missing "config.yaml" configuration root components as_begun refl file_loads
      logs started_up
      (start_process-missing (λ s. s) python.int_of (at 10) (at 9060) components.state_file
        components false false)

abbrev day : List Label
day =
    slot_move "survival" (stop_event (at 15) false "Crafty")
    ∷ slot_move "survival" begin
    ∷ slot_move "survival" (bind_answer true)
    ∷ monitor_turn (record { now = at 20; answer = replied up_empty; stop_answered = true })
    ∷ sighup
    ∷ reloader_turn (loaded configuration)
    ∷ slot_move "survival" (login true "steve" "10.0.0.9")
    ∷ []

abbrev left_behind : File
left_behind = holds (
    payload (at 400) (at 9000)
      (map named_machine (run_process (is_some components.webhook) (λ s. s) day as_begun).servers))

start_process-none :
    (path : Option String) (file : File)
    → path ≡ none
    → start_process
        (λ s. s)
        python.int_of
        (at 10)
        (at 9060)
        (store_of path file)
        components
        false
        false
      ≡ returned as_begun
unfolding start_process when_restored pending_restore
start_process-none none file e = refl
start_process-none (some path) file e = cc

second_start : main launch left_behind ≡ serving root (is_some components.webhook) as_begun
second_start =
    main_serves launch left_behind "config.yaml" configuration root components as_begun refl
      file_loads logs started_up
      (start_process-none components.state_file left_behind no_state_file)

program_stays_sane_example :
    IsSaneProcess (run_process (is_some components.webhook) (λ s. s) day as_begun)
program_stays_sane_example =
    program_stays_sane launch left_behind root (is_some components.webhook) as_begun day
      (saved launch root (is_some components.webhook) as_begun day (at 400) (at 9000) first
        first_start)
      second_start

-- The file is read again, with a guard that allows eleven cycles.
abbrev lenient : AppConfig
lenient = record configuration {
  cooldowns = record configuration.cooldowns { flap_max_cycles = pos 11 };
}

abbrev reloads : List Label
reloads = reloader_turn (loaded configuration) ∷ sighup ∷ reloader_turn (loaded lenient) ∷ []

abbrev reloaded_server : Watched
unfolding machine_of new reload_machine find configuration server
reloaded_server = record {
  machine = record {
    sm = reload_machine lenient "survival" (machine_of false configuration.cooldowns server);
    trace = [];
  };
  pending = none;
}

there :
    find "survival" (run_process (is_some components.webhook) (λ s. s) reloads as_begun).servers
    ≡ some reloaded_server
unfolding find reloaded_server run_process step_process is_over take_turn set_servers configuration
    components server to_servers each begin_process watched_from build machines_of machine_of
    reloader_at reload_with reload_process put_machines apply reload_machines reload_machine
there = refl

flap_guard_never_acts_example : is_flapping (at 500) reloaded_server.machine.sm ≡ false
unfolding reloaded_server configuration
flap_guard_never_acts_example =
    flap_guard_never_acts launch missing root (is_some components.webhook) as_begun reloads
      "survival" reloaded_server (at 500) first first_start there (omega arith)
