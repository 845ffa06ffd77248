-- ===== src/Examples/Store.antt =====
-- Saves, loads and restarts.
use crafty_server_watcher.Common.{
  if◌then◌else◌, ltb, ◌≡◌, refl, true, none, Option, List, [], ◌∷◌, map, pos, ◌+ℤ◌, ◌-ℤ◌, ℤ, String,
  take, arith,
}
use crafty_server_watcher.State.{idle}
use crafty_server_watcher.ServerState.{ServerStateMachine, restore}
use crafty_server_watcher.ServerState.Timing.{idle_elapsed}
use crafty_server_watcher.ServerState.Invariant.{IsSaneSnapshot}
use crafty_server_watcher.Json.{null, num, str, Fields, field, end, int}
use crafty_server_watcher.StateStore.{
  StateStore, returned, missing, holds, save, load, perform_all, calls,
}
use crafty_server_watcher.StateStore.RoundTrip.{
  carried, load-save, restart_keeps_idle_clock, carried-IsSaneSnapshot,
}
use crafty_server_watcher.StateStore.Atomic.{interrupted_all_or_nothing}
use crafty_server_watcher.Examples.Fixture.{at, idle_machine, fresh}
use crafty_server_watcher.Examples.Machines.{idle_machine-IsSane}

abbrev store : StateStore
store = record { enabled = true; file = missing; temp = none }

abbrev no_text : String → Option ℤ
no_text s = none

abbrev machines : List (String × ServerStateMachine)
machines = ("survival", idle_machine) ∷ []

-- Saved at second 400 of the one clock, loaded at second 10 of the next, a minute later.
load-save_example :
    load no_text (at 10) (at 9060) (save (at 400) (at 9000) machines none store)
    ≡ returned (map (λ s. (s.0, carried (at 400) (at 9000) (at 10) (at 9060) s.1)) machines)
unfolding ◌-ℤ◌
load-save_example =
    load-save (at 400) (at 9000) (at 10) (at 9060) no_text machines store refl (omega arith)
      (omega arith)

restart_keeps_idle_clock_example :
    ((restore (carried (at 400) (at 9000) (at 10) (at 9060) idle_machine) true fresh).1 ≡ true)
    × ((restore (carried (at 400) (at 9000) (at 10) (at 9060) idle_machine) true fresh).0.state
        ≡ idle)
    × (idle_elapsed
          (at 10)
          (restore (carried (at 400) (at 9000) (at 10) (at 9060) idle_machine) true fresh).0
        ≡ idle_elapsed (at 400) idle_machine +ℤ (at 9060 -ℤ at 9000))
restart_keeps_idle_clock_example =
    restart_keeps_idle_clock (at 400) (at 9000) (at 10) (at 9060) idle_machine fresh true (at 100)
      refl refl

carried-IsSaneSnapshot_example :
    IsSaneSnapshot idle (carried (at 400) (at 9000) (at 10) (at 9060) idle_machine)
carried-IsSaneSnapshot_example =
    carried-IsSaneSnapshot (at 400) (at 9000) (at 10) (at 9060) idle_machine idle_machine-IsSane

abbrev bad_servers : Fields
bad_servers =
    field "schema" (int (pos 1))
      (field "saved_at" (num (at 9000)) (field "servers" (str "none") end))

interrupted_all_or_nothing_example :
    (perform_all null (take 3 calls) store).file ≡ (if ltb 3 5 then missing else holds null)
interrupted_all_or_nothing_example = interrupted_all_or_nothing null 3 store
