-- ===== src/Examples/Monitor.antt =====
-- Polls of one server, and rounds.
use crafty_server_watcher.Common.{
  ◌≡◌, refl, true, false, some, none, List, [], ◌∷◌, ◌++◌, pos, ◌-ℤ◌, times, count_if, ◌≢◌, ◌↔◌,
  is_some, String, arith,
}
use crafty_server_watcher.ServerState.Timing.{idle_elapsed, recent_cycles}
use crafty_server_watcher.ServerState.Invariant.{IsSane}
use crafty_server_watcher.IdleMonitor.Invariant.{react-IsSane, after_stop-IsSane}
use crafty_server_watcher.ServerState.{Snapshot}
use crafty_server_watcher.IdleMonitor.Round.{Answer, Reply}
use crafty_server_watcher.Examples.Machines.{idle_machine-IsSane}
use crafty_server_watcher.IdleMonitor.{react, after_stop, Watched}
use crafty_server_watcher.IdleMonitor.Shutdown.{
  IsDue, failed_stop_is_retried, stop_exactly_when-IsDue,
}
use crafty_server_watcher.IdleMonitor.Progress.{Poll, run_polls, idle_server_is_stopped}
use crafty_server_watcher.Examples.Fixture.{at, idle_machine, idle_run, up_empty}

react-IsSane_example : IsSane (react true (at 701) "survival" up_empty (pos 0) idle_run).0.sm
react-IsSane_example =
    react-IsSane true (at 701) "survival" up_empty (pos 0) idle_run idle_machine-IsSane

after_stop-IsSane_example : IsSane (after_stop true "survival" (at 601) false (at 702) idle_run).sm
after_stop-IsSane_example =
    after_stop-IsSane true "survival" (at 601) false (at 702) idle_run idle_machine-IsSane

-- What the watcher that ran before has saved of a server that is up.
abbrev snapshot : Snapshot
snapshot = record {
  state = some "IDLE";
  idle_since = some (at 60);
  last_stop_time = none;
  last_start_time = some (at 50);
  start_stop_history = [];
  start_count = pos 1;
  stop_count = pos 0;
}

at_50_truthy : at 50 ≢ pos 0
at_50_truthy e = ground arith

abbrev polls : List Poll
polls = record { now = at 200; stats = up_empty; players = pos 0 } ∷ []

abbrev last_poll : Poll
last_poll = record { now = at 701; stats = up_empty; players = pos 0 }

last_poll-IsDue : IsDue (at 701) up_empty (pos 0) idle_machine
unfolding recent_cycles count_if times ◌-ℤ◌ idle_elapsed
last_poll-IsDue = ground arith

stop_exactly_when-IsDue_example :
    ((react true (at 701) "survival" up_empty (pos 0) idle_run).1
      ≡ some (idle_elapsed (at 701) idle_machine))
    ↔ IsDue (at 701) up_empty (pos 0) idle_machine
stop_exactly_when-IsDue_example =
    stop_exactly_when-IsDue true (at 701) "survival" up_empty (pos 0) idle_run

failed_stop_is_retried_example :
    (react true (at 731) "survival" up_empty (pos 0) (
      after_stop true "survival"
        (idle_elapsed (at 701) idle_machine)
        false
        (at 702)
        (react true (at 701) "survival" up_empty (pos 0) idle_run).0)).1
    ≡ some (at 731 -ℤ (at 702 -ℤ idle_elapsed (at 701) idle_machine))
failed_stop_is_retried_example =
    failed_stop_is_retried true "survival" (at 701) (at 702) (at 731)
      (idle_elapsed (at 701) idle_machine) up_empty up_empty (pos 0) (pos 0) idle_run (omega arith)
      (omega arith) (stop_exactly_when-IsDue_example.1 last_poll-IsDue) refl refl (omega arith)

idle_server_is_stopped_example :
    is_some (run_polls true "survival" (polls ++ last_poll ∷ []) idle_run).1 ≡ true
idle_server_is_stopped_example =
    idle_server_is_stopped true "survival" idle_run polls last_poll refl
      (((refl, refl), omega arith), tt) last_poll-IsDue

abbrev servers : List (String × Watched)
servers = ("survival", record { machine = idle_run; pending = none }) ∷ []

abbrev answering : Answer → String → Reply
answering a name = record { now = at 701; answer = a; stop_answered = true; later = at 702 }
