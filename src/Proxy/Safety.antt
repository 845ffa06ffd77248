-- ===== src/Proxy/Safety.antt =====
-- Who may hold the port, over every order of the tasks' parts.
use crafty_server_watcher.Common.{
  ◌≡◌, ◌≢◌, refl, sym, inl, inr, ◌||◌, Option, none, some, ℕ, suc, ◌≤◌, ℤ, Bool, true, false,
  String, List, [], ◌∷◌, arith,
}
use crafty_server_watcher.State.{State, same, valid_transitions, stopped, starting, crashed}
use crafty_server_watcher.ServerState.{
  Tracked, Snapshot, saved_state, Stats, transition, fire_change,
}
use crafty_server_watcher.ServerState.Invariant.{state-transition}
use crafty_server_watcher.IdleMonitor.Invariant.{state-transition_idle}
use crafty_server_watcher.IdleMonitor.{after_stop}
use crafty_server_watcher.Proxy.{
  Slot, Rebind, resting, binding, sleeping, is_resting, state_of, ensure_listener,
  release_for_start, reclaim_after_stop, handle_login, login_closed, call_start, start_answered,
  bind_answered, pause_over, begin_spawned,
}
use crafty_server_watcher.Proxy.Schedule.{
  Move, poll, stop_answered, ensure, start_event, stop_event, begin, login, closed, start_call,
  start_answer, bind_answer, wake_up, advance, polled, Part, move, first_poll, take_part,
  take_parts,
}
use crafty_server_watcher.Proxy.Refinement.{
  IsStep, seen_by_poll, MayGo, polled-IsStep, first_poll-MayGo,
}
use mathlib.Core.Path.{subst}

-- The number of the attempt to bind that runs or comes next.
abbrev pub attempt_number : Rebind → ℕ
attempt_number resting = 0
attempt_number (binding n) = n
attempt_number (sleeping n) = suc n

-- A listener that is set is not being bound again; there are 15 attempts at most; and a server that the watcher
-- holds in STARTING is locked out, unless a snapshot of a server in STARTING was restored.
pub record IsGuarded (restored : Bool) (p : Slot) : Type 0 where
  pub bound_once : p.listening ≡ true → is_resting p.rebind ≡ true
  pub attempts : attempt_number p.rebind ≤ 14
  pub starting_locked : restored ≡ false → state_of p ≡ starting → p.lockout ≡ true

-- The first poll restores a snapshot of a server in STARTING.
abbrev pub is_start : Option State → Bool
is_start none = false
is_start (some s) = same s starting

abbrev pub restores_start : Part → Bool
restores_start (move m) = false
restores_start (first_poll now stats snapshot) = is_start (saved_state snapshot.state)

abbrev pub may_restore : Bool → List Part → Bool
may_restore restored [] = restored
may_restore restored (part ∷ rest) = may_restore (restored || restores_start part) rest

-- No poll enters STARTING, but by a snapshot.
step_to_starting : (a : State) → IsStep seen_by_poll a starting → a ≡ starting
unfolding valid_transitions
step_to_starting starting h = refl
step_to_starting _ h = ground arith

polled_starting :
    (webhook : Bool) (name : String) (now : ℤ) (stats : Stats) (c : Tracked)
    → (polled webhook name now stats none c).state ≡ starting
    → c.state ≡ starting
polled_starting webhook name now stats c e =
    step_to_starting c.state
      (subst (λ b. IsStep seen_by_poll c.state b) e (polled-IsStep webhook name now stats c))

restored_starting :
    (now : ℤ) (stats : Stats) (snapshot : Snapshot) (a : State)
    → is_start (saved_state snapshot.state) ≡ false
    → MayGo (first_poll now stats snapshot) a starting
    → a ≡ starting
restored_starting now stats snapshot a h (inl w) = step_to_starting a w
restored_starting now stats snapshot a h (inr (s, e, w)) =
    let same_state : s ≡ starting = step_to_starting s w in cc

first_poll_starting :
    (webhook : Bool) (name : String) (now : ℤ) (stats : Stats) (snapshot : Snapshot) (c : Tracked)
    → is_start (saved_state snapshot.state) ≡ false
    → (polled webhook name now stats (some snapshot) c).state ≡ starting
    → c.state ≡ starting
first_poll_starting webhook name now stats snapshot c h e =
    restored_starting now stats snapshot c.state h (
      subst (λ b. MayGo (first_poll now stats snapshot) c.state b) e
        (first_poll-MayGo webhook name now stats snapshot c))

after_stop_starting :
    (webhook : Bool) (name : String) (d : ℤ) (answered : Bool) (now : ℤ) (c : Tracked)
    → (after_stop webhook name d answered now c).state ≡ starting
    → c.state ≡ starting
unfolding after_stop fire_change
after_stop_starting webhook name d answered now c h = ground (arith, state-transition_idle now c)

-- A transition to STOPPED or CRASHED never leaves the machine in STARTING.
stopped_ends_start : (now : ℤ) (c : Tracked) → (transition now stopped c).state ≢ starting
unfolding transition
stopped_ends_start now c = ground arith

crashed_ends_start : (now : ℤ) (c : Tracked) → (transition now crashed c).state ≢ starting
unfolding transition
crashed_ends_start now c = ground arith

or_false : (b : Bool) → (b || false) ≡ b
or_false true = refl
or_false false = refl

module _ (webhook : Bool) (name : String) where
  advance-IsGuarded :
      (restored : Bool) (m : Move) (p : Slot)
      → IsGuarded restored p
      → IsGuarded restored (advance webhook name m p)
  unfolding advance ensure_listener release_for_start reclaim_after_stop handle_login login_closed
      call_start start_answered bind_answered pause_over begin_spawned
  advance-IsGuarded restored (poll now stats) p h =
      ground (arith, polled_starting webhook name now stats p.machine)
  advance-IsGuarded restored (stop_answered d answered now) p h =
      ground (arith, after_stop_starting webhook name d answered now p.machine)
  advance-IsGuarded restored ensure p h = ground arith
  advance-IsGuarded restored (start_event now) p h =
      ground (arith, state-transition now starting p.machine)
  advance-IsGuarded restored (stop_event now false source) p h =
      ground (arith, stopped_ends_start now p.machine)
  advance-IsGuarded restored (stop_event now true source) p h =
      ground (arith, crashed_ends_start now p.machine)
  advance-IsGuarded restored begin p h = ground arith
  advance-IsGuarded restored (login allowed player peer) p h = ground arith
  advance-IsGuarded restored (closed now) p h =
      ground (arith, state-transition now starting p.machine)
  advance-IsGuarded restored start_call p h = ground arith
  advance-IsGuarded restored (start_answer now player answered) p h =
      ground (arith, stopped_ends_start now p.machine)
  advance-IsGuarded restored (bind_answer bound) p h = ground arith
  advance-IsGuarded restored wake_up p h = ground arith

  take_part-IsGuarded :
      (restored : Bool) (part : Part) (p : Slot)
      → IsGuarded restored p
      → IsGuarded (restored || restores_start part) (take_part webhook name part p)
  unfolding take_part
  take_part-IsGuarded restored (move m) p h =
      subst (λ b. IsGuarded b (advance webhook name m p)) (sym (or_false restored))
        (advance-IsGuarded restored m p h)
  take_part-IsGuarded true (first_poll now stats snapshot) p h = record {
    bound_once = h.bound_once;
    attempts = h.attempts;
    starting_locked = λ e. cc;
  }
  take_part-IsGuarded false (first_poll now stats snapshot) p h = record {
    bound_once = h.bound_once;
    attempts = h.attempts;
    starting_locked = λ e q.
        h.starting_locked refl (first_poll_starting webhook name now stats snapshot p.machine e q);
  }

  -- In every order of the parts, a listener that is set is not being bound again, and no loop makes more than 15
  -- attempts; and a server in STARTING is locked out of being bound, unless the first poll has restored a snapshot
  -- of a server in STARTING.
  pub run-IsGuarded :
      (restored : Bool) (parts : List Part) (p : Slot)
      → IsGuarded restored p
      → IsGuarded (may_restore restored parts) (take_parts webhook name parts p)
  unfolding take_parts
  run-IsGuarded restored [] p h = h
  run-IsGuarded restored (part ∷ rest) p h =
      run-IsGuarded (restored || restores_start part) rest (take_part webhook name part p)
        (take_part-IsGuarded restored part p h)
