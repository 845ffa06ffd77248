-- ===== src/IdleMonitor/Saved.antt =====
-- Whether what a poll changes is saved: what `on_change` sees during a poll.
use crafty_server_watcher.Common.{Option, [], if◌then◌else◌}
use crafty_server_watcher.ServerState.{
  ServerStateMachine, Snapshot, Tracked, Stats, update_from_stats,
}
use crafty_server_watcher.ServerState.Persisted.{Persisted}
use crafty_server_watcher.IdleMonitor.{Watched, reconcile_pending}
use crafty_server_watcher.IdleMonitor.Poll.{updated}

-- A machine as a poll finds it, with nothing done yet, and its pending snapshot.
abbrev pub found : ServerStateMachine → Option Snapshot → Watched
found sm pending = record { machine = record { sm = sm; trace = [] }; pending = pending }

-- The machine from which the rules of the poll go on: with the numbers that came back, and reconciled with the pending
-- snapshot if all of them could be read.
abbrev pub reconciled : Stats → ServerStateMachine → Option Snapshot → Tracked
reconciled stats sm pending =
    let w = record (found sm pending) {
      machine = updated stats (record { sm = sm; trace = [] });
    } in
    if (update_from_stats stats sm).1 then (reconcile_pending stats w).machine else w.machine
