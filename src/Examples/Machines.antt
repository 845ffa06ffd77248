-- ===== src/Examples/Machines.antt =====
-- The machine of one server.
use crafty_server_watcher.Common.{◌≡◌, refl, List, [], ◌∷◌, ℤ, arith}
use crafty_server_watcher.State.{State, unknown, stopping, stopped, starting}
use crafty_server_watcher.ServerState.{transition}
use crafty_server_watcher.ServerState.Invariant.{IsSane, run_transitions}
use crafty_server_watcher.ServerState.Persisted.{IsSynced, persisted, last_saved}
use crafty_server_watcher.Examples.Fixture.{at, idle_machine, idle_run}

pub idle_machine-IsSane : IsSane idle_machine
idle_machine-IsSane = ground arith

abbrev requests : List (ℤ × State)
requests = (at 700, stopping) ∷ (at 710, unknown) ∷ (at 720, stopped) ∷ (at 900, starting) ∷ []

run_ends_starting : (run_transitions requests idle_run).state ≡ starting
unfolding run_transitions transition
run_ends_starting = ground arith

pub idle_run-IsSynced : IsSynced (persisted idle_machine) idle_run
unfolding last_saved
idle_run-IsSynced = record { installed = refl; up_to_date = refl }
