-- ===== src/IdleMonitor/Shutdown.antt =====
-- When a poll asks Crafty to stop a server.
use crafty_server_watcher.Common.{
  ℕ, suc, ◌+◌, ◌≡◌, sym, ap, ◌≤◌, ◌↔◌, Bool, true, false, some, none, Option, String, ℤ, pos, ◌≤ℤ◌,
  ◌<ℤ◌, ◌-ℤ◌, times, arith, int_laws, count_if, ltb_ℤ, List, [], ◌∷◌,
}
use mathlib.Core.Path.{subst}
use crafty_server_watcher.Config.{minutes}
use crafty_server_watcher.State.{State, online, idle, stopping, stopped, crashed}
use crafty_server_watcher.ServerState.{
  Tracked, ServerStateMachine, Stats, Effect, api_stop, emit, transition, fire_change,
}
use crafty_server_watcher.ServerState.Timing.{
  idle_elapsed, idle_timeout_reached, in_start_grace, in_stop_cooldown, is_flapping, recent_cycles,
}
use crafty_server_watcher.IdleMonitor.{check_idle_shutdown, after_stop, react}

-- Nothing is recorded, or it lies at least `window` back.
abbrev pub IsPast : ℤ → Option ℤ → ℤ → Type 0
IsPast now none window = Unit {0}
IsPast now (some t) window = window ≤ℤ (now -ℤ t)

-- A server that is up, empty, and long enough idle, with no guard in the way.
pub record IsDue (now : ℤ) (stats : Stats) (players : ℤ) (sm : ServerStateMachine) : Type 0 where
  pub running : stats.running ≡ true
  pub alive : stats.crashed ≡ false
  pub empty : players ≤ℤ pos 0
  pub watched_idle : sm.state ≡ idle
  pub past_grace : IsPast now sm.last_start_time (minutes sm.cooldowns.start_grace_minutes)
  pub past_cooldown : IsPast now sm.last_stop_time (minutes sm.cooldowns.stop_cooldown_minutes)
  pub steady : pos (recent_cycles now sm) <ℤ times 2 sm.cooldowns.flap_max_cycles
  pub idle_long_enough : minutes sm.cfg.idle_timeout_minutes ≤ℤ idle_elapsed now sm

pub due→stop :
    (webhook : Bool) (now : ℤ) (name : String) (stats : Stats) (players : ℤ) (c : Tracked)
    → IsDue now stats players c.sm
    → react webhook now name stats players c ≡ (
      emit (api_stop c.cfg.crafty_server_id) (transition now stopping c),
      some (idle_elapsed now c.sm),
    )
unfolding react check_idle_shutdown in_start_grace in_stop_cooldown is_flapping idle_timeout_reached
due→stop webhook now name stats players c h = ground arith

stop→due :
    (webhook : Bool) (now : ℤ) (name : String) (stats : Stats) (players : ℤ) (c : Tracked) {d : ℤ}
    → (react webhook now name stats players c).1 ≡ some d
    → IsDue now stats players c.sm
unfolding react check_idle_shutdown in_start_grace in_stop_cooldown is_flapping idle_timeout_reached
stop→due webhook now name stats players c h = ground arith

-- How many stop requests a trace holds.
pub stops : List Effect → ℕ
stops [] = 0
stops (api_stop _ ∷ trace) = suc (stops trace)
stops (_ ∷ trace) = stops trace

-- A poll asks for a stop exactly when the server is due, with the idle time it reports.
pub stop_exactly_when-IsDue :
    (webhook : Bool) (now : ℤ) (name : String) (stats : Stats) (players : ℤ) (c : Tracked)
    → ((react webhook now name stats players c).1 ≡ some (idle_elapsed now c.sm))
      ↔ IsDue now stats players c.sm
stop_exactly_when-IsDue webhook now name stats players c = (
  λ h. stop→due webhook now name stats players c h,
  λ h. rw (due→stop webhook now name stats players c h),
)

stops-transition :
    (now : ℤ) (s : State) (c : Tracked) → stops (transition now s c).trace ≡ stops c.trace
unfolding transition stops
stops-transition now s c = ground arith

abbrev asked : Option ℤ → ℕ
asked none = 0
asked (some _) = 1

-- The trace of a poll holds one stop request more if it ends by asking for one, and none more if not.
stops-react :
    (webhook : Bool) (now : ℤ) (name : String) (stats : Stats) (players : ℤ) (c : Tracked)
    → stops (react webhook now name stats players c).0.trace
      ≡ stops c.trace + asked (react webhook now name stats players c).1
unfolding react check_idle_shutdown stops
stops-react webhook now name stats players c = ground (
  arith,
  stops-transition now crashed c,
  stops-transition now stopped c,
  stops-transition now stopping c,
  stops-transition now online c,
  stops-transition now idle c,
)

count_if_mono :
    (a b : ℤ) (xs : List ℤ) → a ≤ℤ b → count_if (λ t. ltb_ℤ b t) xs ≤ count_if (λ t. ltb_ℤ a t) xs
unfolding count_if
count_if_mono a b [] h = omega arith
count_if_mono a b (x ∷ xs) h = ground (arith, count_if_mono a b xs)

IsPast-later :
    (now later : ℤ) (o : Option ℤ) (window : ℤ)
    → now ≤ℤ later
    → IsPast now o window
    → IsPast later o window
IsPast-later now later none window h p = tt
IsPast-later now later (some t) window h p = omega int_laws

recent_cycles_later :
    (now later : ℤ) (sm : ServerStateMachine)
    → now ≤ℤ later
    → recent_cycles later sm ≤ recent_cycles now sm
unfolding recent_cycles
recent_cycles_later now later sm h =
    count_if_mono (now -ℤ minutes sm.cooldowns.flap_window_minutes)
      (later -ℤ minutes sm.cooldowns.flap_window_minutes) sm.start_stop_history (omega int_laws)

-- What a poll that asks to stop and the failure of that request leave: the idle clock moved so that
-- the idle time is the one that was reported, and everything else as it was.
failed_stop :
    (webhook : Bool) (name : String) (d t1 t2 : ℤ) (c : Tracked)
    → c.state ≡ idle
    → (after_stop webhook name d false t2
        (emit (api_stop c.cfg.crafty_server_id) (transition t1 stopping c))).sm
      ≡ record c.sm { idle_since = some (t2 -ℤ d) }
unfolding after_stop transition fire_change
failed_stop webhook name d t1 t2 c h = ground arith

-- A server that was due stays due, as long as it is up and empty and its idle clock is not lost.
IsDue-later :
    (t1 t3 since : ℤ) (stats later : Stats) (players players' : ℤ) (sm : ServerStateMachine)
    → t1 ≤ℤ t3
    → idle_elapsed t1 sm ≤ℤ (t3 -ℤ since)
    → IsDue t1 stats players sm
    → later.running ≡ true
    → later.crashed ≡ false
    → players' ≤ℤ pos 0
    → IsDue t3 later players' (record sm { idle_since = some since })
unfolding idle_elapsed recent_cycles
IsDue-later t1 t3 since stats later players players' sm h e due up alive empty = record {
  running = up;
  alive = alive;
  empty = empty;
  watched_idle = due.watched_idle;
  past_grace = IsPast-later t1 t3 sm.last_start_time _ h due.past_grace;
  past_cooldown = IsPast-later t1 t3 sm.last_stop_time _ h due.past_cooldown;
  steady = omega (int_laws, due.steady, recent_cycles_later t1 t3 sm h);
  idle_long_enough = omega (int_laws, due.idle_long_enough, e);
}

due→stop_after :
    (webhook : Bool) (now since : ℤ) (name : String) (stats : Stats) (players : ℤ) (c : Tracked)
    (sm : ServerStateMachine)
    → c.sm ≡ record sm { idle_since = some since }
    → IsDue now stats players (record sm { idle_since = some since })
    → (react webhook now name stats players c).1 ≡ some (now -ℤ since)
unfolding idle_elapsed
due→stop_after webhook now since name stats players c sm e due =
    rw
      (due→stop webhook now name stats players c
        (subst (λ m. IsDue now stats players m) (sym e) due))
      (ap (λ m. some (idle_elapsed now m)) e)

-- If a poll asks for a stop and the request fails, a later poll that finds the server up and empty
-- asks again, and reports the idle time that has run on from where it was.
pub failed_stop_is_retried :
    (webhook : Bool) (name : String) (t1 t2 t3 d : ℤ) (stats later : Stats) (players players' : ℤ)
    (c : Tracked)
    → t1 ≤ℤ t2
    → t2 ≤ℤ t3
    → (react webhook t1 name stats players c).1 ≡ some d
    → later.running ≡ true
    → later.crashed ≡ false
    → players' ≤ℤ pos 0
    → (react webhook t3 name later players'
        (after_stop webhook name d false t2 (react webhook t1 name stats players c).0)).1
      ≡ some (t3 -ℤ (t2 -ℤ d))
failed_stop_is_retried webhook name t1 t2 t3 d stats later players players' c h12 h23 sent up alive
      empty =
    let due = stop→due webhook t1 name stats players c sent in
    let ends = due→stop webhook t1 name stats players c due in
    let same_idle : idle_elapsed t1 c.sm ≡ d = cc (ends, sent) in
    rw ends (
      due→stop_after webhook t3 (t2 -ℤ d) name later players' _ c.sm
        (failed_stop webhook name d t1 t2 c due.watched_idle)
        (IsDue-later t1 t3 (t2 -ℤ d) stats later players players' c.sm (omega int_laws)
          (rw same_idle (omega int_laws)) due up alive empty))
