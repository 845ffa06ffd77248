-- ===== src/Examples/Listener.antt =====
-- The theorems on proxy_listener.py at runs of one server's slot.
use crafty_server_watcher.Common.{
  ◌≡◌, refl, Bool, true, false, none, some, List, [], ◌∷◌, pos, arith,
}
use crafty_server_watcher.State.{stopped, starting}
use crafty_server_watcher.ServerState.{transition, Snapshot, api_start}
use crafty_server_watcher.Proxy.{
  Slot, start_listener, resting, binding, reclaim_after_stop, ensure_listener, begin_spawned,
  bind_answered, pause_over, handle_login, login_closed, state_of, call_start, start_answered,
}
use crafty_server_watcher.Proxy.Schedule.{
  Move, poll, ensure, start_event, stop_event, begin, login, closed, start_call, start_answer,
  bind_answer, wake_up, advance, run, Part, move, first_poll, take_parts,
}
use crafty_server_watcher.Proxy.Safety.{may_restore, IsGuarded, run-IsGuarded}
use crafty_server_watcher.Proxy.Refinement.{Follows, run_refines_diagram}
use crafty_server_watcher.Proxy.Rebinding.{rebind, rebinding_ends}
use crafty_server_watcher.Proxy.Port.{
  IsFree, IsQuiet, run-IsFree, late_bind_keeps_port, failed_wake_rolls_back, IsHeld, starts,
}
use crafty_server_watcher.Examples.Fixture.{at, idle_machine, tracked, up_empty}

abbrev pub asleep : Slot
asleep = record {
  machine = tracked (record idle_machine { state = stopped; idle_since = none });
  listening = true;
  lockout = false;
  rebind = resting;
  spawned = 0;
  closing = 0;
  pausing = 0;
  calling = 0;
}

abbrev awake : Slot
awake = record asleep { machine = tracked idle_machine; listening = false }

-- A player wakes the server, it answers, and Crafty's console stops it.
abbrev day : List Move
day =
    login true "steve" "10.0.0.1"
    ∷ closed (at 100)
    ∷ ensure
    ∷ start_call
    ∷ start_answer (at 105) "steve" true
    ∷ poll (at 130) up_empty
    ∷ ensure
    ∷ stop_event (at 400) false "Crafty (console or API)"
    ∷ begin
    ∷ bind_answer false
    ∷ wake_up
    ∷ bind_answer true
    ∷ []

asleep-IsGuarded : IsGuarded false asleep
asleep-IsGuarded = record {
  bound_once = λ h. refl;
  attempts = omega arith;
  starting_locked = λ h e. ground arith;
}

-- What the watcher that ran before has saved.
abbrev snapshot : Snapshot
snapshot = record {
  state = some "STOPPED";
  idle_since = none;
  last_stop_time = some (at 4);
  last_start_time = none;
  start_stop_history = [];
  start_count = pos 1;
  stop_count = pos 1;
}

-- A restart, with the first poll that restores a snapshot.
abbrev parts : List Part
parts =
    move begin
    ∷ first_poll (at 90) (record up_empty { running = false }) snapshot
    ∷ move (login true "steve" "10.0.0.1")
    ∷ move (closed (at 100))
    ∷ move ensure
    ∷ move start_call
    ∷ move (start_answer (at 105) "steve" false)
    ∷ []

run-IsGuarded_example :
    IsGuarded (may_restore false parts) (take_parts true "survival" parts asleep)
run-IsGuarded_example = run-IsGuarded true "survival" false parts asleep asleep-IsGuarded

day-IsQuiet : IsQuiet true "survival" day asleep
unfolding advance handle_login login_closed call_start start_answered ensure_listener begin_spawned
    bind_answered pause_over reclaim_after_stop transition
day-IsQuiet = ground arith

run-IsFree_example : IsFree (run true "survival" day asleep)
run-IsFree_example = run-IsFree true "survival" day asleep day-IsQuiet (λ h. ground arith)

abbrev rounds : List Move
rounds = poll (at 101) up_empty ∷ ensure ∷ poll (at 131) up_empty ∷ ensure ∷ []

late_bind_keeps_port_example : IsHeld true "survival" (
    run true "survival"
      (start_event (at 100) ∷ bind_answer true ∷ rounds)
      (record asleep { listening = false; rebind = binding 0 }))
late_bind_keeps_port_example =
    late_bind_keeps_port true "survival" (at 100) 0 rounds
      (record asleep { listening = false; rebind = binding 0 }) refl refl refl
      (refl, (refl, (refl, (refl, tt))))

failed_wake_rolls_back_example :
    let paused =
      login_closed (at 100) (handle_login true "survival" true "steve" "10.0.0.1" asleep) in
    let q = call_start paused in
    let r = start_answered true (at 106) "survival" "steve" false q in
    (starts paused.machine.trace ≡ starts asleep.machine.trace)
    × (q.machine.trace ≡ api_start asleep.machine.cfg.crafty_server_id ∷ paused.machine.trace)
    × (state_of q ≡ starting)
    × (q.listening ≡ false)
    × (q.lockout ≡ true)
    × (state_of r ≡ stopped)
    × (r.lockout ≡ false)
    × (r.rebind ≡ binding 0)
failed_wake_rolls_back_example =
    failed_wake_rolls_back true (at 100) (at 106) "survival" "steve" "10.0.0.1" asleep refl refl

run_refines_diagram_example :
    Follows parts stopped (state_of (take_parts true "survival" parts asleep))
run_refines_diagram_example = run_refines_diagram true "survival" parts asleep

-- The port is free at the third attempt.
abbrev outcomes : List Bool
outcomes =
    false ∷ false ∷ true ∷ false ∷ false ∷ false ∷ false ∷ false ∷ false ∷ false ∷ false ∷ false
    ∷ false ∷ false ∷ false ∷ []

rebinding_ends_example :
    let q = rebind outcomes (start_listener (record asleep { listening = false })) in
    (q.rebind ≡ resting) × (q.listening ≡ true)
rebinding_ends_example =
    rebinding_ends outcomes (record asleep { listening = false }) refl refl refl (omega arith)
