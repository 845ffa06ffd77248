-- ===== src/IdleMonitor/Poll.antt =====
-- `_poll_one` as a whole: a rule for what every poll leaves.
use crafty_server_watcher.Common.{Bool, String, Option, none, some, if_rule, ℤ}
use crafty_server_watcher.ServerState.{Tracked, Stats, update_from_stats}
use crafty_server_watcher.IdleMonitor.{
  Watched, Reaction, raised, react, reconcile_pending, react_watched, poll_one,
}

-- The machine with the numbers that came back.
abbrev pub updated : Stats → Tracked → Tracked
updated stats c = record c { sm = (update_from_stats stats c.sm).0 }

module _ {κ} (P : Tracked → Type κ) (webhook : Bool) (now : ℤ) (name : String) (stats : Stats) where
  react_watched-Holds :
      (o : Option ℤ) (w : Watched)
      → P w.machine
      → ((players : ℤ) → P (react webhook now name stats players w.machine).0)
      → P (react_watched webhook now name stats o w).0.machine
  unfolding react_watched
  react_watched-Holds none w kept reacted = kept
  react_watched-Holds (some players) w kept reacted = reacted players

  -- What the updated machine has, and the reconciled one, and every reaction of the latter, a poll leaves.
  pub poll_one-Holds :
      (w : Watched)
      → let w' = record w { machine = updated stats w.machine } in
        P w'.machine
        → P (reconcile_pending stats w').machine
        → ((players : ℤ)
            → P (react webhook now name stats players (reconcile_pending stats w').machine).0)
        → P (poll_one webhook now name stats w).0.machine
  unfolding poll_one
  poll_one-Holds w kept reconciled reacted =
      let w' = record w { machine = updated stats w.machine } in
      if_rule (λ (x : Watched × Reaction). P x.0.machine) (update_from_stats stats w.machine.sm).1
        (react_watched webhook now name stats stats.online (reconcile_pending stats w'))
        (w', raised)
        (react_watched-Holds stats.online (reconcile_pending stats w') reconciled reacted) kept
