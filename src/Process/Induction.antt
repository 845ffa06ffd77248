-- ===== src/Process/Induction.antt =====
-- An induction on the runs of crafty_server_watcher/__main__.py's tasks: what every single change of the shared
-- state keeps, every run keeps.
use crafty_server_watcher.Common.{
  ◌≡◌, refl, String, Bool, false, Option, none, some, List, [], ◌∷◌, map, if_rule, ℤ,
}
use crafty_server_watcher.Config.{AppConfig}
use crafty_server_watcher.Loading.{Loading, loaded, config_error}
use crafty_server_watcher.Reload.{Watcher, find, apply}
use crafty_server_watcher.Bedrock.{ensure_listener}
use crafty_server_watcher.Proxy.Schedule.{Move, ensure, advance}
use crafty_server_watcher.Health.{Slots}
use crafty_server_watcher.Managers.{Berths, stop_all, stop_berths}
use crafty_server_watcher.AccessControl.{AccessController}
use crafty_server_watcher.Config.{PollingConfig}
use crafty_server_watcher.IdleMonitor.{Watched}
use crafty_server_watcher.IdleMonitor.Round.{Answer}
use crafty_server_watcher.Service.{to_slots, to_servers}
use crafty_server_watcher.Process.{
  Monitor, polling, ensuring, asking, monitor_pause, monitor_end, Task, waiting, ended, Server,
  to_bind, serving, server_end, server_failed, Reloader, unbegun, attentive, reloader_end,
  reloader_failed, Loop, ensuring_berths, berth_pause, berth_end, Process, is_over, at_key, keys,
  to_berths, from_berths, set_servers, set_slots, set_berths,
}
use crafty_server_watcher.Process.Tasks.{
  Met, Progress, asks, finished, poll_answered, after_poll, poll_found, stop_watched, monitor_at,
  proxy_at, health_at, bedrock_at, named_machine, put_machines, reload_process, reload_with,
  reloader_at, BerthMove, move_berth, Label, sigterm, sighup, monitor_turn, proxy_turn, health_turn,
  bedrock_turn, reloader_turn, slot_move, berth_move, take_turn, step_process, run_process,
}

-- A property of the servers, the slots and the berths.
abbrev pub Property : Type 1
Property = List (String × Watched) → Slots → Berths → Type 0

-- The changes of the shared state: the monitor's two to a server, those of a slot and of a berth, what the two
-- managers do at their end, and a reload.
pub record Keeps (webhook : Bool) (casefold : String → String) (P : Property) : Type 0 where
  pub polled :
      (name : String) (now : ℤ) (answer : Answer) (w : Watched) (servers : List (String × Watched))
      (slots : Slots) (berths : Berths)
      → find name servers ≡ some w
      → P servers slots berths
      → let servers' = at_key name (λ _. (poll_answered webhook name now answer w).0) servers in
        P servers' (to_slots servers' slots) (to_berths servers' berths)
  pub stopped :
      (name : String) (d : ℤ) (met : Met) (servers : List (String × Watched)) (slots : Slots)
      (berths : Berths)
      → P servers slots berths
      → let servers' = at_key name (stop_watched webhook name d met) servers in
        P servers' (to_slots servers' slots) (to_berths servers' berths)
  pub moved :
      (name : String) (m : Move) (servers : List (String × Watched)) (slots : Slots)
      (berths : Berths)
      → P servers slots berths
      → let slots' = at_key name (advance webhook name m) slots in
        P (to_servers slots' servers) slots' berths
  pub slots_stopped :
      (servers : List (String × Watched)) (slots : Slots) (berths : Berths)
      → P servers slots berths
      → P (to_servers (stop_all slots) servers) (stop_all slots) berths
  pub ensured :
      (name : String) (servers : List (String × Watched)) (slots : Slots) (berths : Berths)
      → P servers slots berths
      → let berths' = at_key name ensure_listener berths in
        P (from_berths berths' servers) slots berths'
  pub berth_moved :
      (name : String) (m : BerthMove) (servers : List (String × Watched)) (slots : Slots)
      (berths : Berths)
      → P servers slots berths
      → let berths' = at_key name (move_berth m) berths in
        P (from_berths berths' servers) slots berths'
  pub berths_stopped :
      (servers : List (String × Watched)) (slots : Slots) (berths : Berths)
      → P servers slots berths
      → P (from_berths (stop_berths berths) servers) slots (stop_berths berths)
  pub reloaded :
      (new : AppConfig) (cfg : PollingConfig) (access : List (String × AccessController))
      (servers : List (String × Watched)) (slots : Slots) (berths : Berths)
      → P servers slots berths
      → let before : Watcher = record {
        machines = map named_machine servers;
        polling = cfg;
        access = access;
      } in
        let servers' = put_machines (apply casefold new before).machines servers in
        P servers' (to_slots servers' slots) (to_berths servers' berths)

module _ (webhook : Bool) (casefold : String → String) (P : Property)
    (keeps : Keeps webhook casefold P) where
  abbrev Holds : Process → Type 0
  Holds p = P p.servers p.slots p.berths

  after_poll-Holds :
      (name : String) (rest : List String) (r : Progress) (p : Process)
      → Holds p
      → Holds (after_poll name rest r p)
  unfolding after_poll
  after_poll-Holds name rest (asks d) p h = h
  after_poll-Holds name rest (finished o) p h = h

  poll_found-Holds :
      (name : String) (rest : List String) (met : Met) (o : Option Watched) (p : Process)
      → find name p.servers ≡ o
      → Holds p
      → Holds (poll_found webhook name rest met o p)
  unfolding poll_found set_servers
  poll_found-Holds name rest met none p e h = h
  poll_found-Holds name rest met (some w) p e h =
      let (w', r) = poll_answered webhook name met.now met.answer w in
      after_poll-Holds name rest r (set_servers (at_key name (λ _. w') p.servers) p)
        (keeps.polled name met.now met.answer w p.servers p.slots p.berths e h)

  monitor_at-Holds :
      (met : Met) (m : Monitor) (p : Process) → Holds p → Holds (monitor_at webhook met m p)
  unfolding monitor_at set_servers set_slots
  monitor_at-Holds met (polling (name ∷ rest)) p h =
      poll_found-Holds name rest met (find name p.servers) p refl h
  monitor_at-Holds met (asking name d rest) p h =
      keeps.stopped name d met p.servers p.slots p.berths h
  monitor_at-Holds met (ensuring (name ∷ rest)) p h =
      keeps.moved name ensure p.servers p.slots p.berths h
  monitor_at-Holds met (polling []) p h = h
  monitor_at-Holds met (ensuring []) p h = h
  monitor_at-Holds met monitor_pause p h = h
  monitor_at-Holds met monitor_end p h = h

  proxy_at-Holds : (t : Task) (p : Process) → Holds p → Holds (proxy_at t p)
  unfolding proxy_at set_slots
  proxy_at-Holds ended p h = h
  proxy_at-Holds waiting p h =
      if_rule Holds p.shutdown _ p (keeps.slots_stopped p.servers p.slots p.berths h) h

  health_at-Holds :
      (bound : Bool) (t : Server) (p : Process) → Holds p → Holds (health_at bound t p)
  unfolding health_at
  health_at-Holds bound to_bind p h = h
  health_at-Holds bound server_end p h = h
  health_at-Holds bound server_failed p h = h
  health_at-Holds bound serving p h =
      if_rule Holds p.shutdown (record p { health = server_end }) p h h

  bedrock_at-Holds : (t : Loop) (p : Process) → Holds p → Holds (bedrock_at t p)
  unfolding bedrock_at set_berths
  bedrock_at-Holds (ensuring_berths (name ∷ rest)) p h =
      keeps.ensured name p.servers p.slots p.berths h
  bedrock_at-Holds (ensuring_berths []) p h = h
  bedrock_at-Holds berth_end p h = h
  bedrock_at-Holds berth_pause p h =
      if_rule Holds p.shutdown
        (record (set_berths (stop_berths p.berths) p) { bedrock = berth_end })
        (record p { bedrock = ensuring_berths (keys p.berths) })
        (keeps.berths_stopped p.servers p.slots p.berths h) h

  reload_with-Holds :
      (file : Loading AppConfig) (p : Process) → Holds p → Holds (reload_with casefold file p)
  unfolding reload_with reload_process set_servers
  reload_with-Holds (loaded new) p h =
      keeps.reloaded new p.poll_cfg p.access p.servers p.slots p.berths h
  reload_with-Holds config_error p h = h
  reload_with-Holds Loading.raised p h = h

  reloader_at-Holds :
      (file : Loading AppConfig) (r : Reloader) (p : Process)
      → Holds p
      → Holds (reloader_at casefold file r p)
  unfolding reloader_at
  reloader_at-Holds file reloader_end p h = h
  reloader_at-Holds file reloader_failed p h = h
  reloader_at-Holds file unbegun p h =
      if_rule Holds p.shutdown (record p { reloader = reloader_end })
        (record p { reload = false; reloader = attentive }) h h
  reloader_at-Holds file attentive p h =
      if_rule Holds p.shutdown (record p { reloader = reloader_end }) _ h
        (if_rule Holds p.reload (reload_with casefold file p) p (reload_with-Holds file p h) h)

  take_turn-Holds : (l : Label) (p : Process) → Holds p → Holds (take_turn webhook casefold l p)
  unfolding take_turn set_slots set_berths
  take_turn-Holds sigterm p h = h
  take_turn-Holds sighup p h = h
  take_turn-Holds (monitor_turn met) p h = monitor_at-Holds met p.monitor p h
  take_turn-Holds proxy_turn p h = proxy_at-Holds p.proxy p h
  take_turn-Holds (health_turn bound) p h = health_at-Holds bound p.health p h
  take_turn-Holds bedrock_turn p h = bedrock_at-Holds p.bedrock p h
  take_turn-Holds (reloader_turn file) p h = reloader_at-Holds file p.reloader p h
  take_turn-Holds (slot_move name m) p h = keeps.moved name m p.servers p.slots p.berths h
  take_turn-Holds (berth_move name m) p h = keeps.berth_moved name m p.servers p.slots p.berths h

  -- What the changes keep, every run keeps.
  pub run_process-Holds :
      (ls : List Label) (p : Process)
      → P p.servers p.slots p.berths
      → let q = run_process webhook casefold ls p in P q.servers q.slots q.berths
  unfolding run_process step_process
  run_process-Holds [] p h = h
  run_process-Holds (l ∷ rest) p h =
      run_process-Holds rest (step_process webhook casefold l p)
        (if_rule Holds (is_over p) p (take_turn webhook casefold l p) h (take_turn-Holds l p h))
