-- ===== src/Process/Kept.antt =====
-- What the turns of the other tasks of crafty_server_watcher/__main__.py leave of the reload.
use crafty_server_watcher.Common.{
  ◌≡◌, refl, String, Bool, true, false, Option, none, some, List, [], ◌∷◌, arith,
}
use crafty_server_watcher.Reload.{find}
use crafty_server_watcher.IdleMonitor.{Watched}
use crafty_server_watcher.Process.{
  Server, Monitor, polling, ensuring, asking, monitor_pause, monitor_end, Task, waiting, ended,
  Loop, ensuring_berths, berth_pause, berth_end, Process, set_servers, set_slots, set_berths,
}
use crafty_server_watcher.Process.Tasks.{
  Met, Progress, asks, finished, after_poll, poll_found, poll_answered, monitor_at, proxy_at,
  health_at, bedrock_at, Label, sigterm, sighup, monitor_turn, proxy_turn, health_turn,
  bedrock_turn, reloader_turn, slot_move, berth_move, take_turn,
}
use crafty_server_watcher.Process.Work.{is_reloader_turn}

-- What a turn of another task leaves of the reload.
abbrev pub Kept : Process → Process → Type 0
Kept p q =
    (q.reloader ≡ p.reloader)
    × (q.reload ≡ p.reload)
    × (q.poll_cfg ≡ p.poll_cfg)
    × (q.access ≡ p.access)

module _ (webhook : Bool) where
  after_poll-Kept :
      (name : String) (rest : List String) (r : Progress) (p : Process)
      → Kept p (after_poll name rest r p)
  unfolding after_poll
  after_poll-Kept name rest (asks d) p = (refl, refl, refl, refl)
  after_poll-Kept name rest (finished outcome) p = (refl, refl, refl, refl)

  poll_found-Kept :
      (name : String) (rest : List String) (met : Met) (o : Option Watched) (p : Process)
      → Kept p (poll_found webhook name rest met o p)
  unfolding poll_found set_servers
  poll_found-Kept name rest met none p = (refl, refl, refl, refl)
  poll_found-Kept name rest met (some w) p =
      let (w', r) = poll_answered webhook name met.now met.answer w in after_poll-Kept name rest r _

  monitor_at-Kept : (met : Met) (m : Monitor) (p : Process) → Kept p (monitor_at webhook met m p)
  unfolding monitor_at set_servers set_slots
  monitor_at-Kept met (polling (name ∷ rest)) p =
      poll_found-Kept name rest met (find name p.servers) p
  monitor_at-Kept met (polling []) p = (refl, refl, refl, refl)
  monitor_at-Kept met (asking name d rest) p = (refl, refl, refl, refl)
  monitor_at-Kept met (ensuring (name ∷ rest)) p = (refl, refl, refl, refl)
  monitor_at-Kept met (ensuring []) p = (refl, refl, refl, refl)
  monitor_at-Kept met monitor_pause p = (refl, refl, refl, refl)
  monitor_at-Kept met monitor_end p = (refl, refl, refl, refl)

proxy_at-Kept : (t : Task) (p : Process) → Kept p (proxy_at t p)
unfolding proxy_at set_slots
proxy_at-Kept ended p = (refl, refl, refl, refl)
proxy_at-Kept waiting p = ground arith

health_at-Kept : (bound : Bool) (t : Server) (p : Process) → Kept p (health_at bound t p)
unfolding health_at
health_at-Kept bound _ p = ground arith

bedrock_at-Kept : (t : Loop) (p : Process) → Kept p (bedrock_at t p)
unfolding bedrock_at set_berths
bedrock_at-Kept (ensuring_berths (name ∷ rest)) p = (refl, refl, refl, refl)
bedrock_at-Kept (ensuring_berths []) p = (refl, refl, refl, refl)
bedrock_at-Kept berth_pause p = ground arith
bedrock_at-Kept berth_end p = (refl, refl, refl, refl)

abbrev pub is_sighup : Label → Bool
is_sighup sighup = true
is_sighup _ = false

module _ (webhook : Bool) (casefold : String → String) where
  pub take_turn-Kept :
      (l : Label) (p : Process)
      → is_reloader_turn l ≡ false
      → is_sighup l ≡ false
      → Kept p (take_turn webhook casefold l p)
  unfolding take_turn set_slots set_berths
  take_turn-Kept sigterm p r s = (refl, refl, refl, refl)
  take_turn-Kept sighup p r s = cc
  take_turn-Kept (monitor_turn met) p r s = monitor_at-Kept webhook met p.monitor p
  take_turn-Kept proxy_turn p r s = proxy_at-Kept p.proxy p
  take_turn-Kept (health_turn bound) p r s = health_at-Kept bound p.health p
  take_turn-Kept bedrock_turn p r s = bedrock_at-Kept p.bedrock p
  take_turn-Kept (reloader_turn file) p r s = cc
  take_turn-Kept (slot_move name m) p r s = (refl, refl, refl, refl)
  take_turn-Kept (berth_move name m) p r s = (refl, refl, refl, refl)
