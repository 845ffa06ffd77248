-- ===== src/Proxy/Port.antt =====
-- The port during a start that the watcher knows of.
use crafty_server_watcher.Common.{
  ◌≡◌, ℕ, suc, ℤ, Bool, true, false, not, ◌&&◌, none, All, String, List, [], ◌∷◌, arith,
}
use crafty_server_watcher.State.{stopped, starting, stopping, online, idle, crashed, elem}
use crafty_server_watcher.ServerState.{
  Tracked, Stats, Effect, api_start, transition, update_from_stats,
}
use crafty_server_watcher.ServerState.Invariant.{state-transition}
use crafty_server_watcher.IdleMonitor.{
  react, on_running, check_idle_shutdown, reconcile_pending, reconcile_with,
}
use crafty_server_watcher.IdleMonitor.Poll.{updated, poll_one-Holds}
use crafty_server_watcher.Proxy.{
  Slot, Rebind, resting, binding, state_of, is_down, ensure_listener, release_for_start,
  reclaim_after_stop, handle_login, login_closed, call_start, start_answered, bind_answered,
  pause_over, begin_spawned,
}
use crafty_server_watcher.Proxy.Schedule.{
  Move, poll, ensure, start_event, stop_event, begin, closed, bind_answer, advance, polled, run,
}

abbrev pub is_binding : Rebind → Bool
is_binding (binding n) = true
is_binding _ = false

-- While the server is locked out nothing listens on its port and no attempt to bind is in flight.
abbrev pub IsFree : Slot → Type 0
IsFree p = p.lockout ≡ true → (p.listening ≡ false) × (is_binding p.rebind ≡ false)

-- The moves that announce a start.
abbrev pub is_start : Move → Bool
is_start (start_event _) = true
is_start (closed _) = true
is_start _ = false

module _ (webhook : Bool) (name : String) where
  -- No start is announced while an attempt to bind is in flight.
  abbrev pub IsQuiet : List Move → Slot → Type 0
  IsQuiet [] p = Unit {0}
  IsQuiet (m ∷ rest) p =
      (is_start m ≡ true → is_binding p.rebind ≡ false) × IsQuiet rest (advance webhook name m p)

  advance-IsFree :
      (m : Move) (p : Slot)
      → (is_start m ≡ true → is_binding p.rebind ≡ false)
      → IsFree p
      → IsFree (advance webhook name m p)
  unfolding advance ensure_listener release_for_start reclaim_after_stop handle_login login_closed
      call_start start_answered bind_answered pause_over begin_spawned
  advance-IsFree (poll now stats) p q h = ground arith
  advance-IsFree _ p q h = ground arith

  -- If no start is announced while an attempt to bind is in flight, then in every order of the parts
  -- the port of a locked-out server stays free.
  pub run-IsFree :
      (moves : List Move) (p : Slot)
      → IsQuiet moves p
      → IsFree p
      → IsFree (run webhook name moves p)
  unfolding run
  run-IsFree [] p q h = h
  run-IsFree (m ∷ rest) p (q, qs) h =
      run-IsFree rest (advance webhook name m p) qs (advance-IsFree m p q h)

  -- A poll that finds the server running, or the end of a round.
  abbrev pub is_up : Move → Bool
  is_up (poll now stats) = stats.running && not stats.crashed
  is_up ensure = true
  is_up _ = false

  react_up :
      (now : ℤ) (stats : Stats) (players : ℤ) (c : Tracked)
      → (stats.running && not stats.crashed) ≡ true
      → elem c.state (stopped ∷ crashed ∷ []) ≡ false
      → elem (react webhook now name stats players c).0.state (stopped ∷ crashed ∷ []) ≡ false
  unfolding react on_running check_idle_shutdown
  react_up now stats players c up awake = ground (
    arith,
    state-transition now stopping c,
    state-transition now online c,
    state-transition now idle c,
  )

  polled_up :
      (now : ℤ) (stats : Stats) (c : Tracked)
      → (stats.running && not stats.crashed) ≡ true
      → elem c.state (stopped ∷ crashed ∷ []) ≡ false
      → elem (polled webhook name now stats none c).state (stopped ∷ crashed ∷ []) ≡ false
  unfolding polled reconcile_pending reconcile_with update_from_stats
  polled_up now stats c up awake =
      let still : elem (updated stats c).state (stopped ∷ crashed ∷ []) ≡ false = ground arith in
      poll_one-Holds (λ d. elem d.state (stopped ∷ crashed ∷ []) ≡ false) webhook now name stats
        (record { machine = c; pending = none }) still still
        (λ players. react_up now stats players (updated stats c) up still)

  abbrev pub IsHeld : Slot → Type 0
  IsHeld p = (p.listening ≡ true) × (p.lockout ≡ true) × (is_down p ≡ false)

  up-IsHeld : (m : Move) (p : Slot) → is_up m ≡ true → IsHeld p → IsHeld (advance webhook name m p)
  unfolding advance ensure_listener
  up-IsHeld (poll now stats) p up (l, o, d) = (l, o, polled_up now stats p.machine up d)
  up-IsHeld ensure p up h = ground arith
  up-IsHeld _ p up h = cc

  run-IsHeld :
      (moves : List Move) (p : Slot)
      → All (λ m. is_up m ≡ true) moves
      → IsHeld p
      → IsHeld (run webhook name moves p)
  unfolding run
  run-IsHeld [] p up h = h
  run-IsHeld (m ∷ rest) p (u, up) h =
      run-IsHeld rest (advance webhook name m p) up (up-IsHeld m p u h)

  late_bind :
      (now : ℤ) (n : ℕ) (p : Slot)
      → state_of p ≡ stopped
      → p.lockout ≡ false
      → p.rebind ≡ binding n
      → IsHeld (advance webhook name (bind_answer true) (advance webhook name (start_event now) p))
  unfolding advance release_for_start bind_answered transition
  late_bind now n p s o b = ground arith

  -- If Crafty announces a start while an attempt to bind is in flight, and the attempt succeeds, then the proxy holds
  -- the port of the server that starts, and goes on to hold it through all later polls that find the server running
  -- and the ends of their rounds, in any order and whatever else the polls find.
  pub late_bind_keeps_port :
      (now : ℤ) (n : ℕ) (moves : List Move) (p : Slot)
      → state_of p ≡ stopped
      → p.lockout ≡ false
      → p.rebind ≡ binding n
      → All (λ m. is_up m ≡ true) moves
      → IsHeld (run webhook name (start_event now ∷ bind_answer true ∷ moves) p)
  unfolding run
  late_bind_keeps_port now n moves p s o b up =
      run-IsHeld moves
        (advance webhook name (bind_answer true) (advance webhook name (start_event now) p)) up
        (late_bind now n p s o b)

-- How many requests to start a trace holds.
abbrev pub starts : List Effect → ℕ
starts [] = 0
starts (api_start _ ∷ trace) = suc (starts trace)
starts (_ ∷ trace) = starts trace

-- A player who may not wake the server changes neither the machine nor who holds the port.
pub denied_login_changes_nothing :
    (webhook : Bool) (name player peer : String) (p : Slot)
    → let q = handle_login webhook name false player peer p in
      q ≡ record p { machine = record p.machine { trace = q.machine.trace } }
unfolding handle_login
denied_login_changes_nothing webhook name player peer p = ground arith

-- A player who may wake a sleeping server frees its port, and once the pause is over the start of this server is
-- requested; if the request fails the server is asleep again and its port is being bound again.
pub failed_wake_rolls_back :
    (webhook : Bool) (t1 t2 : ℤ) (name player peer : String) (p : Slot)
    → is_down p ≡ true
    → p.rebind ≡ resting
    → let paused = login_closed t1 (handle_login webhook name true player peer p) in
      let q = call_start paused in
      let r = start_answered webhook t2 name player false q in
      (starts paused.machine.trace ≡ starts p.machine.trace)
      × (q.machine.trace ≡ api_start p.machine.cfg.crafty_server_id ∷ paused.machine.trace)
      × (state_of q ≡ starting)
      × (q.listening ≡ false)
      × (q.lockout ≡ true)
      × (state_of r ≡ stopped)
      × (r.lockout ≡ false)
      × (r.rebind ≡ binding 0)
unfolding handle_login login_closed call_start start_answered transition
failed_wake_rolls_back webhook t1 t2 name player peer p d r = ground arith

-- When Crafty says that a server goes down, the watcher has it as stopped or crashed, and when the
-- spawned task has bound the port the proxy listens again.
pub stop_event_rebinds :
    (webhook : Bool) (now : ℤ) (name source : String) (crash : Bool) (p : Slot)
    → is_down p ≡ false
    → p.listening ≡ false
    → p.rebind ≡ resting
    → let q = run webhook name (stop_event now crash source ∷ begin ∷ bind_answer true ∷ []) p in
      (is_down q ≡ true) × (q.lockout ≡ false) × (q.listening ≡ true)
unfolding run advance reclaim_after_stop begin_spawned bind_answered transition
stop_event_rebinds webhook now name source crash p d l r = ground arith
