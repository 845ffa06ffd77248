-- ===== src/Proxy/Refinement.antt =====
-- The tasks of the watcher against the diagram of the states: an abstract server that only has a state.
use crafty_server_watcher.Common.{
  ◌≡◌, refl, ◌⊎◌, inl, inr, String, Bool, true, ◌||◌, ◌&&◌, none, some, List, [], ◌∷◌, ℤ, arith,
  Option-cases, Bool-cases, not,
}
use mathlib.Core.Path.{subst}
use crafty_server_watcher.State.{
  State, unknown, online, idle, stopping, stopped, starting, crashed, same, elem, valid_transitions,
}
use crafty_server_watcher.ServerState.{
  ServerStateMachine, Snapshot, Tracked, Stats, transition, fire_change, update_from_stats, restore,
  saved_state, reconcile, same_bool, is_running,
}
use crafty_server_watcher.IdleMonitor.{
  check_idle_shutdown, after_stop, on_crashed, on_not_running, on_running, react, reconcile_with,
  reconcile_pending,
}
use crafty_server_watcher.IdleMonitor.Poll.{updated, poll_one-Holds}
use crafty_server_watcher.Proxy.{
  Slot, state_of, ensure_listener, release_for_start, reclaim_after_stop, handle_login,
  login_closed, call_start, start_answered, bind_answered, pause_over, begin_spawned,
}
use crafty_server_watcher.Proxy.Schedule.{
  Move, poll, stop_answered, start_event, stop_event, closed, start_answer, advance, polled, Part,
  move, first_poll, take_part, take_parts,
}

-- The abstract server stays, or takes one edge of the diagram into one of these states.
abbrev pub IsStep : List State → State → State → Type 0
IsStep targets a b = (same b a || (elem b (valid_transitions a) && elem b targets)) ≡ true

-- The states that a poll may enter.
abbrev pub seen_by_poll : List State
seen_by_poll = online ∷ idle ∷ stopping ∷ stopped ∷ crashed ∷ []

-- The states that a part may enter: the end of a failed request to stop goes back to IDLE, a start that is announced
-- to STARTING, one that fails to STOPPED.
abbrev pub targets : Move → List State
targets (poll _ _) = seen_by_poll
targets (stop_answered _ _ _) = idle ∷ []
targets (start_event _) = starting ∷ []
targets (stop_event _ _ _) = stopped ∷ crashed ∷ []
targets (closed _) = starting ∷ []
targets (start_answer _ _ _) = stopped ∷ []
targets _ = []

-- What the abstract server does at a part: where a snapshot is pending, it may take the state of that first.
abbrev pub MayGo : Part → State → State → Type 0
MayGo (move m) a b = IsStep (targets m) a b
MayGo (first_poll _ _ snapshot) a b =
    IsStep seen_by_poll a b
    ⊎ ((s : State) × (saved_state snapshot.state ≡ some s) × IsStep seen_by_poll s b)

-- A run of the abstract server, one step for each part.
pub data Follows : List Part → State → State → Type 0 where
  done : {a : State} → Follows [] a a
  next :
      {part : Part} {rest : List Part} {a b c : State}
      → MayGo part a b
      → Follows rest b c
      → Follows (part ∷ rest) a c

same_refl : (a : State) → same a a ≡ true
same_refl unknown = refl
same_refl _ = refl

stays : (ts : List State) (a : State) → IsStep ts a a
stays ts a = rw (same_refl a) refl

transition-IsStep :
    (ts : List State) (now : ℤ) (s : State) (c : Tracked)
    → elem s ts ≡ true
    → IsStep ts c.state (transition now s c).state
unfolding transition
transition-IsStep ts now s c h = ground (arith, same_refl c.state)

react-IsStep :
    (webhook : Bool) (now : ℤ) (name : String) (stats : Stats) (players : ℤ) (c : Tracked)
    → IsStep seen_by_poll c.state (react webhook now name stats players c).0.state
unfolding react on_crashed on_not_running on_running check_idle_shutdown
react-IsStep webhook now name stats players c = ground (
  arith,
  stays seen_by_poll c.state,
  transition-IsStep seen_by_poll now crashed c refl,
  transition-IsStep seen_by_poll now stopped c refl,
  transition-IsStep seen_by_poll now online c refl,
  transition-IsStep seen_by_poll now idle c refl,
  transition-IsStep seen_by_poll now stopping c refl,
)

after_stop-IsStep :
    (webhook : Bool) (name : String) (d : ℤ) (answered : Bool) (now : ℤ) (c : Tracked)
    → IsStep (idle ∷ []) c.state (after_stop webhook name d answered now c).state
unfolding after_stop fire_change
after_stop-IsStep webhook name d answered now c =
    ground (arith, stays (idle ∷ []) c.state, transition-IsStep (idle ∷ []) now idle c refl)

state-updated : (stats : Stats) (c : Tracked) → (updated stats c).state ≡ c.state
unfolding update_from_stats
state-updated stats c = ground arith

adopted-state :
    (snapshot : Snapshot) (running : Bool) (sm : ServerStateMachine) (s : State)
    → let r = (reconcile snapshot running sm (some s)).0.state in
      (r ≡ sm.state) ⊎ ((t : State) × (some s ≡ some t) × (r ≡ t))
unfolding reconcile
adopted-state snapshot running sm s = elim (Bool-cases (same_bool (is_running s) running)) [
  | inl e ↦ rw e (inr (s, refl, refl))
  | inr e ↦ rw e (inl refl)
]

-- A machine that is reconciled with a snapshot has the state that it had, or the snapshot's.
restore-state :
    (snapshot : Snapshot) (running : Bool) (sm : ServerStateMachine)
    → ((restore snapshot running sm).0.state ≡ sm.state)
      ⊎ ((s : State) × (saved_state snapshot.state ≡ some s)
          × ((restore snapshot running sm).0.state ≡ s))
unfolding restore
restore-state snapshot running sm = elim (Option-cases (saved_state snapshot.state)) [
  | inl e ↦ rw e (inl refl)
  | inr (s, e) ↦ rw e (adopted-state snapshot running sm s)
]

module _ (webhook : Bool) (name : String) where
  pub polled-IsStep :
      (now : ℤ) (stats : Stats) (c : Tracked)
      → IsStep seen_by_poll c.state (polled webhook name now stats none c).state
  unfolding polled reconcile_pending reconcile_with
  polled-IsStep now stats c =
      let same : (updated stats c).state ≡ c.state = state-updated stats c in
      subst (λ a. IsStep seen_by_poll a (polled webhook name now stats none c).state) same
        (poll_one-Holds (λ d. IsStep seen_by_poll (updated stats c).state d.state) webhook now name
          stats (record { machine = c; pending = none }) (stays seen_by_poll _)
          (stays seen_by_poll _)
          (λ players. react-IsStep webhook now name stats players (updated stats c)))

  advance-IsStep :
      (m : Move) (p : Slot) → IsStep (targets m) (state_of p) (state_of (advance webhook name m p))
  unfolding advance ensure_listener release_for_start reclaim_after_stop handle_login login_closed
      call_start start_answered bind_answered pause_over begin_spawned
  advance-IsStep (poll now stats) p = polled-IsStep now stats p.machine
  advance-IsStep (stop_answered d answered now) p =
      after_stop-IsStep webhook name d answered now p.machine
  advance-IsStep (start_event now) p = ground (
    arith,
    stays (starting ∷ []) (state_of p),
    transition-IsStep (starting ∷ []) now starting p.machine refl,
  )
  advance-IsStep (stop_event now crash source) p = ground (
    arith,
    stays (stopped ∷ crashed ∷ []) (state_of p),
    transition-IsStep (stopped ∷ crashed ∷ []) now crashed p.machine refl,
    transition-IsStep (stopped ∷ crashed ∷ []) now stopped p.machine refl,
  )
  advance-IsStep (closed now) p = ground (
    arith,
    stays (starting ∷ []) (state_of p),
    transition-IsStep (starting ∷ []) now starting p.machine refl,
  )
  advance-IsStep (start_answer now player answered) p = ground (
    arith,
    stays (stopped ∷ []) (state_of p),
    transition-IsStep (stopped ∷ []) now stopped p.machine refl,
  )
  advance-IsStep _ p = ground (arith, stays [] (state_of p))

  -- Where the reconciled machine went, from the state before or from the snapshot's.
  restored-MayGo :
      (now : ℤ) (stats : Stats) (snapshot : Snapshot) (a r b : State)
      → (r ≡ a) ⊎ ((s : State) × (saved_state snapshot.state ≡ some s) × (r ≡ s))
      → IsStep seen_by_poll r b
      → MayGo (first_poll now stats snapshot) a b
  restored-MayGo now stats snapshot a r b (inl e) h = inl (subst (λ x. IsStep seen_by_poll x b) e h)
  restored-MayGo now stats snapshot a r b (inr (s, e, q)) h =
      inr (s, e, subst (λ x. IsStep seen_by_poll x b) q h)

  pub first_poll-MayGo :
      (now : ℤ) (stats : Stats) (snapshot : Snapshot) (c : Tracked)
      → MayGo
          (first_poll now stats snapshot)
          c.state
          (polled webhook name now stats (some snapshot) c).state
  unfolding polled reconcile_pending reconcile_with
  first_poll-MayGo now stats snapshot c =
      let before : State = (updated stats c).state in
      let after = restore snapshot (stats.running && not stats.crashed) (updated stats c).sm in
      let went : (b : State)
          → IsStep seen_by_poll after.0.state b
          → MayGo (first_poll now stats snapshot) before b =
        λ b.
          restored-MayGo now stats snapshot before after.0.state b
            (restore-state snapshot (stats.running && not stats.crashed) (updated stats c).sm) in
      subst
        (λ a.
          MayGo (first_poll now stats snapshot) a
            (polled webhook name now stats (some snapshot) c).state)
        (state-updated stats c)
        (poll_one-Holds (λ d. MayGo (first_poll now stats snapshot) before d.state) webhook now name
          stats (record { machine = c; pending = some snapshot }) (inl (stays seen_by_poll before))
          (went after.0.state (stays seen_by_poll after.0.state))
          (λ players. went _ (
            react-IsStep webhook now name stats players
              (record (updated stats c) { sm = after.0 }))))

  take_part-MayGo :
      (part : Part) (p : Slot) → MayGo part (state_of p) (state_of (take_part webhook name part p))
  unfolding take_part
  take_part-MayGo (move m) p = advance-IsStep m p
  take_part-MayGo (first_poll now stats snapshot) p = first_poll-MayGo now stats snapshot p.machine

  -- Whatever the parts of the tasks meet, in every order, the server's state takes one step of the abstract server for
  -- each part: it stays, or goes along one edge of the diagram into a state that this part may enter. At the poll
  -- that restores a snapshot it may take the snapshot's state before that step.
  pub run_refines_diagram :
      (parts : List Part) (p : Slot)
      → Follows parts (state_of p) (state_of (take_parts webhook name parts p))
  unfolding take_parts
  run_refines_diagram [] p = done
  run_refines_diagram (part ∷ rest) p =
      next (take_part-MayGo part p) (run_refines_diagram rest (take_part webhook name part p))
