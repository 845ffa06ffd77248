-- ===== src/Process/Ending.antt =====
-- crafty_server_watcher/__main__.py: once the shutdown is requested, every task comes to its end.
use crafty_server_watcher.Common.{
  ℕ, ◌-◌, ◌≤◌, ◌≡◌, refl, String, Bool, true, Option, none, some, List, [], ◌∷◌, if◌then◌else◌,
  length, count_if, Bool-cases, inl, inr, arith,
}
use crafty_server_watcher.Loading.{Loading}
use crafty_server_watcher.Config.{AppConfig}
use crafty_server_watcher.IdleMonitor.{Watched}
use crafty_server_watcher.Proxy.Schedule.{advance}
use crafty_server_watcher.Reload.{find}
use crafty_server_watcher.Process.{
  Monitor, polling, ensuring, asking, monitor_pause, monitor_end, Task, waiting, ended, Server,
  Reloader, unbegun, attentive, reloader_end, reloader_failed, Loop, ensuring_berths, berth_pause,
  berth_end, Process, is_over, at_key, set_servers, set_slots, set_berths,
}
use crafty_server_watcher.Process.Work.{
  monitor_work, task_work, reloader_work, loop_work, is_monitor_turn, is_proxy_turn, server_work,
  is_reloader_turn, is_health_turn, is_bedrock_turn, HasTurns, no_turns, length-keys, length-at_key,
  length-to_slots, length-stop_all,
}
use crafty_server_watcher.Process.Tasks.{
  Met, Progress, asks, finished, poll_answered, after_poll, poll_found, stop_watched, monitor_at,
  proxy_at, health_at, bedrock_at, reloader_at, Label, sigterm, sighup, monitor_turn, proxy_turn,
  health_turn, bedrock_turn, reloader_turn, slot_move, berth_move, take_turn, step_process,
  run_process,
}

-- Between two states every task needs as many turns or fewer, and so much fewer.
abbrev Closer : ℕ → ℕ → ℕ → ℕ → ℕ → Process → Process → Type 0
Closer a b c d e p q =
    (q.shutdown ≡ true)
    × (monitor_work (length q.slots) q.monitor ≤ monitor_work (length p.slots) p.monitor - a)
    × (task_work q.proxy ≤ task_work p.proxy - b)
    × (reloader_work q.reloader ≤ reloader_work p.reloader - c)
    × (server_work q.health ≤ server_work p.health - d)
    × (loop_work q.bedrock ≤ loop_work p.bedrock - e)

module _ (webhook : Bool) where
  after_poll-Closer :
      (name : String) (rest : List String) (r : Progress) (servers : List (String × Watched))
      (p : Process)
      → p.shutdown ≡ true
      → p.monitor ≡ polling (name ∷ rest)
      → Closer 1 0 0 0 0 p (after_poll name rest r (set_servers servers p))
  unfolding after_poll set_servers
  after_poll-Closer name rest (asks d) servers p on e =
      ground (arith, length-to_slots servers p.slots)
  after_poll-Closer name rest (finished outcome) servers p on e =
      ground (arith, length-to_slots servers p.slots)

  poll_found-Closer :
      (name : String) (rest : List String) (met : Met) (o : Option Watched) (p : Process)
      → p.shutdown ≡ true
      → p.monitor ≡ polling (name ∷ rest)
      → Closer 1 0 0 0 0 p (poll_found webhook name rest met o p)
  unfolding poll_found
  poll_found-Closer name rest met none p on e = ground arith
  poll_found-Closer name rest met (some w) p on e =
      let (w', r) = poll_answered webhook name met.now met.answer w in
      after_poll-Closer name rest r (at_key name (λ _. w') p.servers) p on e

  monitor_at-Closer :
      (met : Met) (m : Monitor) (p : Process)
      → p.shutdown ≡ true
      → p.monitor ≡ m
      → Closer 1 0 0 0 0 p (monitor_at webhook met m p)
  unfolding monitor_at set_servers set_slots
  monitor_at-Closer met (polling (name ∷ rest)) p on e =
      poll_found-Closer name rest met (find name p.servers) p on e
  monitor_at-Closer met (polling []) p on e = ground (arith, length-keys p.slots)
  monitor_at-Closer met (asking name d rest) p on e =
      ground
        (arith, length-to_slots (at_key name (stop_watched webhook name d met) p.servers) p.slots)
  monitor_at-Closer met (ensuring (name ∷ rest)) p on e = ground arith
  monitor_at-Closer met (ensuring []) p on e = ground arith
  monitor_at-Closer met monitor_pause p on e = ground arith
  monitor_at-Closer met monitor_end p on e = ground arith

proxy_at-Closer :
    (t : Task) (p : Process) → p.shutdown ≡ true → p.proxy ≡ t → Closer 0 1 0 0 0 p (proxy_at t p)
unfolding proxy_at set_slots
proxy_at-Closer ended p on e = ground arith
proxy_at-Closer waiting p on e = ground (arith, length-stop_all p.slots)

health_at-Closer :
    (bound : Bool) (t : Server) (p : Process)
    → p.shutdown ≡ true
    → p.health ≡ t
    → Closer 0 0 0 1 0 p (health_at bound t p)
unfolding health_at
health_at-Closer bound _ p on e = ground arith

bedrock_at-Closer :
    (t : Loop) (p : Process)
    → p.shutdown ≡ true
    → p.bedrock ≡ t
    → Closer 0 0 0 0 1 p (bedrock_at t p)
unfolding bedrock_at set_berths
bedrock_at-Closer (ensuring_berths (name ∷ rest)) p on e = ground arith
bedrock_at-Closer (ensuring_berths []) p on e = ground arith
bedrock_at-Closer berth_pause p on e = ground arith
bedrock_at-Closer berth_end p on e = ground arith

reloader_at-Closer :
    (casefold : String → String) (file : Loading AppConfig) (r : Reloader) (p : Process)
    → p.shutdown ≡ true
    → p.reloader ≡ r
    → Closer 0 0 1 0 0 p (reloader_at casefold file r p)
unfolding reloader_at
reloader_at-Closer casefold file unbegun p on e = ground arith
reloader_at-Closer casefold file attentive p on e = rw on (ground arith)
reloader_at-Closer casefold file reloader_end p on e = ground arith
reloader_at-Closer casefold file reloader_failed p on e = ground arith

abbrev hit : Bool → ℕ
hit b = if b then 1 else 0

spent-le :
    (test : Label → Bool) (l : Label) (rest : List Label) (m n : ℕ)
    → m ≤ count_if test (l ∷ rest)
    → n ≤ m - hit (test l)
    → n ≤ count_if test rest
unfolding count_if
spent-le test l rest m n h k = ground arith

spent-HasTurns :
    (l : Label) (rest : List Label) (p q : Process)
    → HasTurns (l ∷ rest) p
    → Closer
        (hit (is_monitor_turn l))
        (hit (is_proxy_turn l))
        (hit (is_reloader_turn l))
        (hit (is_health_turn l))
        (hit (is_bedrock_turn l))
        p
        q
    → (q.shutdown ≡ true) × HasTurns rest q
spent-HasTurns l rest p q h (on, m, x, r, t, b) = (
  on,
  record {
    monitor = spent-le is_monitor_turn l rest _ _ h.monitor m;
    proxy = spent-le is_proxy_turn l rest _ _ h.proxy x;
    reloader = spent-le is_reloader_turn l rest _ _ h.reloader r;
    health = spent-le is_health_turn l rest _ _ h.health t;
    bedrock = spent-le is_bedrock_turn l rest _ _ h.bedrock b;
  },
)

module _ (webhook : Bool) (casefold : String → String) where
  take_turn-Closer :
      (l : Label) (p : Process)
      → p.shutdown ≡ true
      → Closer
          (hit (is_monitor_turn l))
          (hit (is_proxy_turn l))
          (hit (is_reloader_turn l))
          (hit (is_health_turn l))
          (hit (is_bedrock_turn l))
          p
          (take_turn webhook casefold l p)
  unfolding take_turn set_slots set_berths
  take_turn-Closer sigterm p on = ground arith
  take_turn-Closer sighup p on = ground arith
  take_turn-Closer (monitor_turn met) p on = monitor_at-Closer webhook met p.monitor p on refl
  take_turn-Closer proxy_turn p on = proxy_at-Closer p.proxy p on refl
  take_turn-Closer (health_turn bound) p on = health_at-Closer bound p.health p on refl
  take_turn-Closer bedrock_turn p on = bedrock_at-Closer p.bedrock p on refl
  take_turn-Closer (reloader_turn file) p on = reloader_at-Closer casefold file p.reloader p on refl
  take_turn-Closer (slot_move name m) p on =
      ground (arith, length-at_key name (advance webhook name m) p.slots)
  take_turn-Closer (berth_move name m) p on = ground arith

  pub run_process-over :
      (ls : List Label) (p : Process) → is_over p ≡ true → run_process webhook casefold ls p ≡ p
  unfolding run_process step_process
  run_process-over [] p h = refl
  run_process-over (l ∷ rest) p h = rw h (run_process-over rest p h)

  -- Once the shutdown is requested, a sequence of turns ends the watcher if in it the monitor has two turns
  -- for each server that it still polls and one for each listener, and two more, the Bedrock manager one for
  -- each server that it still ensures, and two more, and the other tasks one each. The turns may come in any
  -- order, whatever they meet, with any signals, logins, events and binds in between.
  pub shutdown_ends_watcher :
      (ls : List Label) (p : Process)
      → p.shutdown ≡ true
      → HasTurns ls p
      → is_over (run_process webhook casefold ls p) ≡ true
  unfolding run_process step_process
  shutdown_ends_watcher [] p on h = no_turns p h
  shutdown_ends_watcher (l ∷ rest) p on h = elim (Bool-cases (is_over p)) [
    | inl over ↦ rw over (rw (run_process-over rest p over) over)
    | inr going ↦
        let (still, left) =
          spent-HasTurns l rest p (take_turn webhook casefold l p) h (take_turn-Closer l p on) in
        rw going (shutdown_ends_watcher rest (take_turn webhook casefold l p) still left)
  ]
