-- ===== src/IdleMonitor/Round.antt =====
-- `_poll_all`: one round over the servers, with the handling of errors.
pub mod Sanity
pub mod Outage
use crafty_server_watcher.Common.{
  ℕ, zero, suc, ◌+◌, ◌==◌, ◌≡◌, refl, String, Bool, true, false, Option, none, some, List, [], ◌∷◌,
  ◌++◌, map, if◌then◌else◌, ℤ, All, length, arith, ap, length-append,
}
use crafty_server_watcher.State.{State, value}
use crafty_server_watcher.State.Graph.{of_value-value}
use crafty_server_watcher.ServerState.{
  Tracked, ServerStateMachine, Stats, Snapshot, restore, update_from_stats,
}
use crafty_server_watcher.ServerState.Invariant.{IsSane, IsSaneSnapshot, restore-IsSane}
use crafty_server_watcher.IdleMonitor.{
  Watched, Reaction, settled, raised, stop_requested, reconcile_pending, react_watched, poll_one,
  after_stop, react,
}
use crafty_server_watcher.IdleMonitor.Invariant.{react-IsSane, after_stop-IsSane}

-- How `get_server_stats` ends: with stats, with a ConnectionError, with a CraftyApiError of some
-- status, or with any other exception.
pub data Answer : Type 0 where
  replied : Stats → Answer
  unreachable : Answer
  api_error : ℕ → Answer
  failed : Answer

-- What one server's poll meets: the clock and the answer, and, should it ask for a stop, whether
-- `stop_server` returns and what the clock reads then.
pub record Reply : Type 0 where
  pub now : ℤ
  pub answer : Answer
  pub stop_answered : Bool
  pub later : ℤ

-- How `_poll_one` ends for `_poll_all`.
pub data Outcome : Type 0 where
  done connection_error other_error : Outcome
  crafty_error : ℕ → Outcome

unfoldable pub finish : Bool → String → Reply → Watched × Reaction → Watched × Outcome
finish webhook name reply (w, settled) = (w, done)
finish webhook name reply (w, raised) = (w, other_error)
finish webhook name reply (w, stop_requested d) = (
  record w { machine = after_stop webhook name d reply.stop_answered reply.later w.machine },
  done,
)

unfoldable pub answered : Bool → String → Reply → Answer → Watched → Watched × Outcome
unfolding finish
answered webhook name reply (replied stats) w =
    finish webhook name reply (poll_one webhook reply.now name stats w)
answered webhook name reply unreachable w = (w, connection_error)
answered webhook name reply (api_error status) w = (w, crafty_error status)
answered webhook name reply failed w = (w, other_error)

-- `_poll_one` from beginning to end, with nothing else running at its `await`s.
unfoldable pub poll_server : Bool → String → Reply → Watched → Watched × Outcome
unfolding answered
poll_server webhook name reply w = answered webhook name reply reply.answer w

unfoldable pub next_failures : Outcome → ℕ → ℕ
next_failures done n = 0
next_failures connection_error n = suc n
next_failures other_error n = n
next_failures (crafty_error status) n = n

-- A CraftyApiError of status 403 ends the round.
abbrev pub is_forbidden : Outcome → Bool
is_forbidden (crafty_error status) = status == 403
is_forbidden _ = false

-- The servers in the order of the dictionary, and `_consecutive_failures`.
unfoldable pub poll_all :
    Bool → (String → Reply) → List (String × Watched) → ℕ → List (String × Watched) × ℕ
unfolding next_failures
poll_all webhook reply [] failures = ([], failures)
poll_all webhook reply ((name, w) ∷ rest) failures =
    let (w', outcome) = poll_server webhook name (reply name) w in
    let (rest', failures') = poll_all webhook reply rest (next_failures outcome failures) in
    if is_forbidden outcome then ((name, w') ∷ rest, failures) else ((name, w') ∷ rest', failures')
