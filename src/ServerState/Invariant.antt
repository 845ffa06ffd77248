-- ===== src/ServerState/Invariant.antt =====
-- What holds of a machine between two events, and what `transition` and `restore` do to it.
use crafty_server_watcher.Common.{
  ◌≡◌, if◌then◌else◌, ◌≤◌, Bool, true, some, List, [], ◌∷◌, ◌++◌, ℤ, length, length-last_n, is_some,
  Bool-cases, inl, inr, arith,
}
use crafty_server_watcher.State.{State, idle, starting, crashed, elem, valid_transitions, value}
use crafty_server_watcher.State.Graph.{of_value-value, Walk, Walk-append, here, step}
use crafty_server_watcher.ServerState.{
  ServerStateMachine, Tracked, Snapshot, enter, fire_change, append_history, transition, restore,
}

-- The clocks fit the state: an idle server has an idle clock and a starting one a start clock; an
-- idle clock is left over at most through a crash and the start that follows it.
pub record IsSane (sm : ServerStateMachine) : Type 0 where
  pub idle_clock : sm.state ≡ idle → is_some sm.idle_since ≡ true
  pub start_clock : sm.state ≡ starting → is_some sm.last_start_time ≡ true
  pub idle_states :
      is_some sm.idle_since ≡ true → elem sm.state (idle ∷ crashed ∷ starting ∷ []) ≡ true
  pub history_bounded : length sm.start_stop_history ≤ 20

length-append_history : (h : List ℤ) (now : ℤ) → length (append_history h now) ≤ 20
unfolding append_history
length-append_history h now = length-last_n 20 (h ++ now ∷ [])

-- Every transition, valid or not, keeps the clocks in line with the state and the history bounded.
pub transition-IsSane :
    (now : ℤ) (new_state : State) (c : Tracked)
    → IsSane c.sm
    → IsSane (transition now new_state c).sm
unfolding transition
transition-IsSane now s c h = ground (arith, length-append_history c.start_stop_history now)

-- Along an edge a transition enters the state and runs the callback; along none it changes nothing.
pub transition_lem :
    (now : ℤ) (s : State) (c : Tracked)
    → transition now s c ≡ (
        if elem s (valid_transitions c.state)
        then fire_change (record c { sm = enter s now c.sm })
        else c)
unfolding transition
transition_lem now s c = ground arith

-- A run of requested transitions, each with the reading of the clock at which it is made.
unfoldable pub run_transitions : List (ℤ × State) → Tracked → Tracked
run_transitions [] c = c
run_transitions ((now, s) ∷ rest) c = run_transitions rest (transition now s c)

pub state-transition :
    (now : ℤ) (s : State) (c : Tracked)
    → (transition now s c).state ≡ (if elem s (valid_transitions c.state) then s else c.state)
unfolding transition
state-transition now s c = ground arith

transition-Walk : (now : ℤ) (s : State) (c : Tracked) → Walk c.state (transition now s c).state
transition-Walk now s c = elim (Bool-cases (elem s (valid_transitions c.state))) [
  | inl e ↦ rw (state-transition now s c) (rw e (step e here))
  | inr e ↦ rw (state-transition now s c) (rw e here)
]

-- Whatever transitions are requested, the machine stays sane, moves along edges only, and comes
-- back to UNKNOWN never.
pub run_transitions_safe :
    (requests : List (ℤ × State)) (c : Tracked)
    → IsSane c.sm
    → IsSane (run_transitions requests c).sm × Walk c.state (run_transitions requests c).state
unfolding run_transitions
run_transitions_safe [] c h = (h, here)
run_transitions_safe ((now, s) ∷ rest) c h =
    let (sane, walk) =
      run_transitions_safe rest (transition now s c) (transition-IsSane now s c h) in
    (sane, Walk-append (transition-Walk now s c) walk)

-- What a snapshot must hold to be adopted by a machine that is to stay sane.
pub record IsSaneSnapshot (s : State) (snapshot : Snapshot) : Type 0 where
  pub idle_clock : s ≡ idle → is_some snapshot.idle_since ≡ true
  pub start_clock : s ≡ starting → is_some snapshot.last_start_time ≡ true
  pub idle_states :
      is_some snapshot.idle_since ≡ true → elem s (idle ∷ crashed ∷ starting ∷ []) ≡ true

pub restore-IsSane :
    (s : State) (snapshot : Snapshot) (running : Bool) (sm : ServerStateMachine)
    → snapshot.state ≡ some (value s)
    → IsSaneSnapshot s snapshot
    → IsSane sm
    → IsSane (restore snapshot running sm).0
unfolding restore
restore-IsSane s snapshot running sm e h k =
    ground (arith, of_value-value s, length-last_n 20 snapshot.start_stop_history)
