-- ===== src/Proxy/Schedule.antt =====
-- The parts of the tasks that work on one server's slot, in any order: each move is a part that runs
-- between two `await`s of one task.
use crafty_server_watcher.Common.{String, Bool, Option, none, some, List, [], ◌∷◌, ℤ}
use crafty_server_watcher.ServerState.{Tracked, Snapshot, Stats}
use crafty_server_watcher.IdleMonitor.{poll_one, after_stop}
use crafty_server_watcher.Proxy.{
  Slot, ensure_listener, release_for_start, reclaim_after_stop, handle_login, login_closed,
  call_start, start_answered, bind_answered, pause_over, begin_spawned,
}

pub data Move : Type 0 where
  -- A poll with nothing to restore, up to the request to stop, and what follows that request.
  poll : ℤ → Stats → Move
  stop_answered : ℤ → Bool → ℤ → Move
  -- The end of a round of polls.
  ensure : Move
  -- Crafty's own events.
  start_event : ℤ → Move
  stop_event : ℤ → Bool → String → Move
  -- A listener task that such an event has spawned begins.
  begin : Move
  -- A login, the close of its connection, the request to start that follows it, and its answer.
  login : Bool → String → String → Move
  closed : ℤ → Move
  start_call : Move
  start_answer : ℤ → String → Bool → Move
  -- The attempt to bind ends; the pause after a failed attempt ends.
  bind_answer : Bool → Move
  wake_up : Move

-- What the monitor does besides, for a server whose snapshot is pending: its first poll reconciles the two.
pub data Part : Type 0 where
  move : Move → Part
  first_poll : ℤ → Stats → Snapshot → Part

module _ (webhook : Bool) (name : String) where
  -- What a poll makes of the machine that the monitor and the slot share.
  unfoldable pub polled : ℤ → Stats → Option Snapshot → Tracked → Tracked
  polled now stats pending c =
      (poll_one webhook now name stats (record { machine = c; pending = pending })).0.machine

  unfoldable pub advance : Move → Slot → Slot
  advance (poll now stats) p = record p { machine = polled now stats none p.machine }
  advance (stop_answered idle_seconds answered now) p = record p {
    machine = after_stop webhook name idle_seconds answered now p.machine;
  }
  advance ensure p = ensure_listener p
  advance (start_event now) p = (release_for_start webhook now name p).0
  advance (stop_event now crash source) p = (reclaim_after_stop webhook now name crash source p).0
  advance begin p = begin_spawned p
  advance (login allowed player peer) p = handle_login webhook name allowed player peer p
  advance (closed now) p = login_closed now p
  advance start_call p = call_start p
  advance (start_answer now player answered) p = start_answered webhook now name player answered p
  advance (bind_answer bound) p = bind_answered bound p
  advance wake_up p = pause_over p

  unfoldable pub run : List Move → Slot → Slot
  run [] p = p
  run (m ∷ rest) p = run rest (advance m p)

  unfoldable pub take_part : Part → Slot → Slot
  take_part (move m) p = advance m p
  take_part (first_poll now stats snapshot) p = record p {
    machine = polled now stats (some snapshot) p.machine;
  }

  unfoldable pub take_parts : List Part → Slot → Slot
  take_parts [] p = p
  take_parts (part ∷ rest) p = take_parts rest (take_part part p)
