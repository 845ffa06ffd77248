-- ===== src/IdleMonitor/Round/Sanity.antt =====
-- A round of polls keeps every server sane.
use crafty_server_watcher.Common.{
  ℕ, ◌≡◌, ◌&&◌, not, String, Bool, Option, none, some, List, [], ◌∷◌, if_rule, ℤ, All, arith,
}
use crafty_server_watcher.State.{State, value}
use crafty_server_watcher.ServerState.{
  Tracked, ServerStateMachine, Stats, Snapshot, update_from_stats,
}
use crafty_server_watcher.ServerState.Invariant.{IsSane, IsSaneSnapshot, restore-IsSane}
use crafty_server_watcher.IdleMonitor.{
  Watched, Reaction, settled, raised, stop_requested, reconcile_pending, reconcile_with,
  react_watched, poll_one,
}
use crafty_server_watcher.IdleMonitor.Invariant.{react-IsSane, after_stop-IsSane}
use crafty_server_watcher.IdleMonitor.Round.{
  Reply, Answer, replied, finish, answered, poll_server, poll_all, is_forbidden, next_failures,
}

-- A pending snapshot is one that a sane machine can have left.
abbrev pub IsSanePending : Option Snapshot → Type 0
IsSanePending none = Unit {0}
IsSanePending (some snapshot) =
    (s : State) × (snapshot.state ≡ some (value s)) × IsSaneSnapshot s snapshot

pub record IsSaneWatched (w : Watched) : Type 0 where
  pub machine : IsSane w.machine.sm
  pub pending : IsSanePending w.pending

update-IsSane :
    (stats : Stats) (sm : ServerStateMachine) → IsSane sm → IsSane (update_from_stats stats sm).0
unfolding update_from_stats
update-IsSane stats sm h = ground arith

reconcile_with-IsSane :
    (stats : Stats) (c : Tracked) (o : Option Snapshot)
    → IsSane c.sm
    → IsSanePending o
    → IsSaneWatched (reconcile_with stats c o)
unfolding reconcile_with
reconcile_with-IsSane stats c none h p = record { machine = h; pending = tt }
reconcile_with-IsSane stats c (some snapshot) h (s, e, p) = record {
  machine = restore-IsSane s snapshot (stats.running && not stats.crashed) c.sm e p h;
  pending = tt;
}

react_watched-IsSane :
    (webhook : Bool) (now : ℤ) (name : String) (stats : Stats) (o : Option ℤ) (w : Watched)
    → IsSaneWatched w
    → IsSaneWatched (react_watched webhook now name stats o w).0
unfolding react_watched
react_watched-IsSane webhook now name stats none w h = h
react_watched-IsSane webhook now name stats (some players) w h = record {
  machine = react-IsSane webhook now name stats players w.machine h.machine;
  pending = h.pending;
}

pub poll_one-IsSane :
    (webhook : Bool) (now : ℤ) (name : String) (stats : Stats) (w : Watched)
    → IsSaneWatched w
    → IsSaneWatched (poll_one webhook now name stats w).0
unfolding poll_one reconcile_pending
poll_one-IsSane webhook now name stats w h =
    let sm = (update_from_stats stats w.machine.sm).0 in
    let sane : IsSane sm = update-IsSane stats w.machine.sm h.machine in
    let c = record w.machine { sm = sm } in
    if_rule (λ (x : Watched × Reaction). IsSaneWatched x.0) (update_from_stats stats w.machine.sm).1
      (react_watched webhook now name stats stats.online (reconcile_with stats c w.pending))
      (record w { machine = c }, raised)
      (react_watched-IsSane webhook now name stats stats.online (reconcile_with stats c w.pending)
        (reconcile_with-IsSane stats c w.pending sane h.pending))
      (record { machine = sane; pending = h.pending })

finish-IsSane :
    (webhook : Bool) (name : String) (reply : Reply) (x : Watched × Reaction)
    → IsSaneWatched x.0
    → IsSaneWatched (finish webhook name reply x).0
unfolding finish
finish-IsSane webhook name reply (w, settled) h = h
finish-IsSane webhook name reply (w, raised) h = h
finish-IsSane webhook name reply (w, stop_requested d) h = record {
  machine = after_stop-IsSane webhook name d reply.stop_answered reply.later w.machine h.machine;
  pending = h.pending;
}

answered-IsSane :
    (webhook : Bool) (name : String) (reply : Reply) (a : Answer) (w : Watched)
    → IsSaneWatched w
    → IsSaneWatched (answered webhook name reply a w).0
unfolding answered
answered-IsSane webhook name reply (replied stats) w h =
    finish-IsSane webhook name reply _ (poll_one-IsSane webhook reply.now name stats w h)
answered-IsSane webhook name reply _ w h = h

-- One server's whole poll, errors included, keeps it sane.
pub poll_server-IsSane :
    (webhook : Bool) (name : String) (reply : Reply) (w : Watched)
    → IsSaneWatched w
    → IsSaneWatched (poll_server webhook name reply w).0
unfolding poll_server
poll_server-IsSane webhook name reply w h = answered-IsSane webhook name reply reply.answer w h

abbrev pub AllSane : List (String × Watched) → Type 0
AllSane = All (λ s. IsSaneWatched s.1)

-- A round keeps every server sane, whatever the answers and wherever it ends.
pub poll_all-IsSane :
    (webhook : Bool) (reply : String → Reply) (servers : List (String × Watched)) (failures : ℕ)
    → AllSane servers
    → AllSane (poll_all webhook reply servers failures).0
unfolding poll_all
poll_all-IsSane webhook reply [] failures h = h
poll_all-IsSane webhook reply ((name, w) ∷ rest) failures (h, hs) =
    let (w', outcome) = poll_server webhook name (reply name) w in
    let h' : IsSaneWatched w' = poll_server-IsSane webhook name (reply name) w h in
    let (rest', failures') = poll_all webhook reply rest (next_failures outcome failures) in
    if_rule (λ (r : List (String × Watched) × ℕ). AllSane r.0) (is_forbidden outcome)
      ((name, w') ∷ rest, failures) ((name, w') ∷ rest', failures') (h', hs)
      (h', poll_all-IsSane webhook reply rest (next_failures outcome failures) hs)
