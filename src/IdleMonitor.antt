-- ===== src/IdleMonitor.antt =====
-- crafty_server_watcher/idle_monitor.py: one poll of a server, and a round over all servers.
-- What the awaited calls of the Crafty API answer, and what the clock reads, are arguments. A handler
-- is cut at its `await`: the part before it, and the part that runs when the answer is there.
pub mod Invariant
pub mod Shutdown
pub mod Progress
pub mod Poll
pub mod Saved
pub mod Round
use crafty_server_watcher.Common.{
  String, Bool, true, false, not, ◌&&◌, Option, none, some, [], ◌∷◌, if◌then◌else◌, ℤ, pos, ◌-ℤ◌,
  ltb_ℤ, eq_ℤ, str_eq,
}
use crafty_server_watcher.Config.{seconds}
use crafty_server_watcher.State.{
  State, unknown, online, idle, stopping, stopped, starting, crashed, same, elem,
}
use crafty_server_watcher.ServerState.{
  ServerStateMachine, Tracked, Snapshot, Stats, api_stop, notify_crashed, notify_stopped, emit,
  fire_change, transition, restore, update_from_stats,
}
use crafty_server_watcher.ServerState.Timing.{
  idle_elapsed, idle_timeout_reached, in_start_grace, in_stop_cooldown, is_flapping,
}

-- `sm.last_start_time and now - sm.last_start_time > sm.cfg.start_timeout_seconds`: a start time of
-- exactly 0.0 counts as none.
abbrev pub start_timed_out : ℤ → ServerStateMachine → Bool
start_timed_out now sm = elim sm.last_start_time [
  | none ↦ false
  | some t ↦ not (eq_ℤ t (pos 0)) && ltb_ℤ (seconds sm.cfg.start_timeout_seconds) (now -ℤ t)
]

-- `_check_idle_shutdown` up to `await self._api.stop_server(…)`; the second part is the idle time
-- when the request was sent.
unfoldable pub check_idle_shutdown : ℤ → Tracked → Tracked × Option ℤ
check_idle_shutdown now c =
    if in_start_grace now c.sm
    then (c, none)
    else if in_stop_cooldown now c.sm
    then (c, none)
    else if is_flapping now c.sm
    then (c, none)
    else if not (idle_timeout_reached now c.sm)
    then (c, none)
    else (
      emit (api_stop c.cfg.crafty_server_id) (transition now stopping c),
      some (idle_elapsed now c.sm),
    )

-- The rest of it: `answered` is false when `stop_server` raised.
unfoldable pub after_stop : Bool → String → ℤ → Bool → ℤ → Tracked → Tracked
after_stop webhook name idle_seconds false now c =
    let r = transition now idle c in
    fire_change (record r { sm = record r.sm { idle_since = some (now -ℤ idle_seconds) } })
after_stop webhook name idle_seconds true now c =
    if webhook then emit (notify_stopped name idle_seconds "") c else c

abbrev online_or_idle : ℤ → State
online_or_idle players = if ltb_ℤ (pos 0) players then online else idle

-- `crashed` is reported.
unfoldable pub on_crashed : Bool → ℤ → String → Tracked → Tracked
on_crashed webhook now name c =
    if same c.state crashed
    then c
    else let r = transition now crashed c in if webhook then emit (notify_crashed name) r else r

-- The server does not run.
unfoldable pub on_not_running : ℤ → Tracked → Tracked
on_not_running now c =
    if same c.state starting
    then (if start_timed_out now c.sm then transition now stopped c else c)
    else if not (elem c.state (stopped ∷ crashed ∷ []))
    then transition now stopped c
    else c

-- The server runs: what happens depends on the state that the watcher has for it.
unfoldable pub on_running : ℤ → Stats → ℤ → State → Tracked → Tracked × Option ℤ
on_running now stats players starting c = (
  if str_eq stats.int_ping_results "True"
      then transition now online c
      else if start_timed_out now c.sm
      then transition now (online_or_idle players) c
      else c,
  none,
)
on_running now stats players stopped c = (transition now (online_or_idle players) c, none)
on_running now stats players crashed c = (transition now (online_or_idle players) c, none)
on_running now stats players unknown c = (transition now (online_or_idle players) c, none)
on_running now stats players stopping c = (c, none)
on_running now stats players online c =
    (if ltb_ℤ (pos 0) players then c else transition now idle c, none)
on_running now stats players idle c =
    if ltb_ℤ (pos 0) players then (transition now online c, none) else check_idle_shutdown now c

-- `_poll_one` behind the reconciliation, up to the request to stop.
unfoldable pub react : Bool → ℤ → String → Stats → ℤ → Tracked → Tracked × Option ℤ
unfolding on_crashed on_not_running on_running
react webhook now name stats players c =
    if stats.crashed
    then (on_crashed webhook now name c, none)
    else if not stats.running
    then (on_not_running now c, none)
    else on_running now stats players c.state c

-- A server's machine and its entry of `_pending_restore`.
pub record Watched : Type 0 where
  pub machine : Tracked
  pub pending : Option Snapshot

-- `if name in self._pending_restore: sm.restore(self._pending_restore.pop(name), …)`
unfoldable pub reconcile_with : Stats → Tracked → Option Snapshot → Watched
reconcile_with stats c none = record { machine = c; pending = none }
reconcile_with stats c (some snapshot) = record {
  machine = record c { sm = (restore snapshot (stats.running && not stats.crashed) c.sm).0 };
  pending = none;
}

unfoldable pub reconcile_pending : Stats → Watched → Watched
unfolding reconcile_with
reconcile_pending stats w = reconcile_with stats w.machine w.pending

-- How the part of `_poll_one` before the request ends.
pub data Reaction : Type 0 where
  settled raised : Reaction
  stop_requested : ℤ → Reaction

reaction : Option ℤ → Reaction
reaction none = settled
reaction (some idle_seconds) = stop_requested idle_seconds

unfoldable pub react_watched : Bool → ℤ → String → Stats → Option ℤ → Watched → Watched × Reaction
unfolding reaction
react_watched webhook now name stats none w = (w, raised)
react_watched webhook now name stats (some players) w =
    let (c, stop) = react webhook now name stats players w.machine in
    (record w { machine = c }, reaction stop)

-- `_poll_one` with the stats that came back: numbers that `int` refuses raise.
unfoldable pub poll_one : Bool → ℤ → String → Stats → Watched → Watched × Reaction
unfolding react_watched
poll_one webhook now name stats w =
    let (sm, read) = update_from_stats stats w.machine.sm in
    let w' = record w { machine = record w.machine { sm = sm } } in
    if read
    then react_watched webhook now name stats stats.online (reconcile_pending stats w')
    else (w', raised)
