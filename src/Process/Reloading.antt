-- ===== src/Process/Reloading.antt =====
-- crafty_server_watcher/__main__.py: which SIGHUP is acted on, and what it reaches.
use crafty_server_watcher.Common.{
  ◌≡◌, ◌≢◌, refl, ◌∙◌, sym, ap, if_rule, Bool-cases, inl, inr, String, Bool, true, false, Option,
  none, some, is_some, List, [], ◌∷◌, map, All, count_if, eq_iff, arith,
}
use crafty_server_watcher.Config.{CooldownConfig, AppConfig}
use crafty_server_watcher.ServerState.{ServerStateMachine, Machines}
use crafty_server_watcher.Loading.{loaded}
use crafty_server_watcher.Reload.{find, apply, reload_machine, reload_machines}
use crafty_server_watcher.IdleMonitor.{Watched}
use crafty_server_watcher.Service.Sanity.{Holds, find-Holds}
use crafty_server_watcher.Service.{each}
use crafty_server_watcher.Process.{attentive, Process, is_over, set_servers}
use crafty_server_watcher.Process.Tasks.{
  named_machine, reloaded_machine, put_machines, reload_process, reload_with, reloader_at, Label,
  sighup, reloader_turn, take_turn, step_process, run_process,
}
use crafty_server_watcher.Process.Work.{is_reloader_turn}
use crafty_server_watcher.Process.Ending.{run_process-over}
use crafty_server_watcher.Process.Kept.{take_turn-Kept}

true-ne-false : true ≢ false
true-ne-false e = ground arith

module _ (webhook : Bool) (casefold : String → String) where
  take_turn-asked :
      (l : Label) (p : Process)
      → is_reloader_turn l ≡ false
      → p.reload ≡ true
      → ((take_turn webhook casefold l p).reloader ≡ p.reloader)
        × ((take_turn webhook casefold l p).reload ≡ true)
  unfolding take_turn
  take_turn-asked sighup p n r = (refl, refl)
  take_turn-asked (reloader_turn file) p n r = cc
  take_turn-asked l p n r =
      let (e, q, c, a) = take_turn-Kept webhook casefold l p n refl in (e, q ∙ r)

  step_process-asked :
      (l : Label) (p : Process)
      → is_reloader_turn l ≡ false
      → p.reloader ≡ attentive
      → p.reload ≡ true
      → ((step_process webhook casefold l p).reloader ≡ attentive)
        × ((step_process webhook casefold l p).reload ≡ true)
  unfolding step_process
  step_process-asked l p n e r =
      let (e', r') = take_turn-asked l p n r in
      if_rule (λ q. (q.reloader ≡ attentive) × (q.reload ≡ true)) (is_over p) p
        (take_turn webhook casefold l p) (e, r) (e' ∙ e, r')

  -- While no turn is its own, the reloader still waits, and a reload that was asked for still is.
  stays_asked :
      (ls : List Label) (p : Process)
      → p.reloader ≡ attentive
      → p.reload ≡ true
      → count_if is_reloader_turn ls ≡ 0
      → ((run_process webhook casefold ls p).reloader ≡ attentive)
        × ((run_process webhook casefold ls p).reload ≡ true)
  unfolding run_process count_if
  stays_asked [] p e r none_of = (e, r)
  stays_asked (l ∷ rest) p e r none_of =
      let other : is_reloader_turn l ≡ false = ground arith in
      let none_left : count_if is_reloader_turn rest ≡ 0 = ground arith in
      let (e', r') = step_process-asked l p other e r in
      stays_asked rest (step_process webhook casefold l p) e' r' none_left

abbrev Cools : CooldownConfig → Watched → Type 0
Cools cooldowns w = w.machine.sm.cooldowns ≡ cooldowns

reload_machines-cool :
    (new : AppConfig) (machines : Machines)
    → All
        (λ (e : String × ServerStateMachine). e.1.cooldowns ≡ new.cooldowns)
        (reload_machines new machines)
unfolding reload_machines reload_machine
reload_machines-cool new [] = tt
reload_machines-cool new ((name, sm) ∷ rest) = (refl, reload_machines-cool new rest)

put_machine-Cools :
    (cooldowns : CooldownConfig) (o : Option ServerStateMachine) (w : Watched)
    → is_some o ≡ true
    → Holds (λ (sm : ServerStateMachine). sm.cooldowns ≡ cooldowns) o
    → Cools cooldowns (reloaded_machine o w)
put_machine-Cools cooldowns none w known h = cc
put_machine-Cools cooldowns (some sm) w known h = h

put_machines-Cools :
    (cooldowns : CooldownConfig) (machines : Machines) (servers : List (String × Watched))
    → All (λ (e : String × ServerStateMachine). e.1.cooldowns ≡ cooldowns) machines
    → All (λ (e : String × Watched). is_some (find e.0 machines) ≡ true) servers
    → All (λ (e : String × Watched). Cools cooldowns e.1) (put_machines machines servers)
unfolding put_machines each
put_machines-Cools cooldowns machines [] h known = tt
put_machines-Cools cooldowns machines ((name, w) ∷ rest) h (q, known) = (
  put_machine-Cools cooldowns (find name machines) w q (find-Holds _ name machines h),
  put_machines-Cools cooldowns machines rest h known,
)

all_known :
    (new : AppConfig) (machines : Machines) (servers : List (String × Watched))
    → ((name : String)
        → is_some (find name (reload_machines new (map named_machine servers))) ≡ true
        → is_some (find name machines) ≡ true)
    → All (λ (e : String × Watched). is_some (find e.0 machines) ≡ true) servers
unfolding reload_machines find
all_known new machines [] within = tt
all_known new machines ((name, w) ∷ rest) within = (
  within name (rw ((eq_iff name name).1 refl) refl),
  all_known new machines rest (λ n h. within n (ground arith)),
)

module _ (webhook : Bool) (casefold : String → String) where
  reload_turn :
      (new : AppConfig) (q : Process)
      → is_over q ≡ false
      → q.shutdown ≡ false
      → (q.reloader ≡ attentive) × (q.reload ≡ true)
      → let r = step_process webhook casefold (reloader_turn (loaded new)) q in
        (r.poll_cfg ≡ new.polling)
        × (r.reloader ≡ attentive)
        × (r.reload ≡ false)
        × All (λ (e : String × Watched). e.1.machine.sm.cooldowns ≡ new.cooldowns) r.servers
  unfolding step_process take_turn reloader_at reload_with reload_process set_servers apply
  reload_turn new q going on (waits, asked) =
      let machines = reload_machines new (map named_machine q.servers) in
      simp (going, waits, on, asked)
        (
          refl,
          refl,
          refl,
          put_machines-Cools new.cooldowns machines q.servers
              (reload_machines-cool new (map named_machine q.servers))
              (all_known new machines q.servers (λ n h. h)),
        )

  sighup-asked :
      (p : Process)
      → is_over p ≡ false
      → p.reloader ≡ attentive
      → ((step_process webhook casefold sighup p).reloader ≡ attentive)
        × ((step_process webhook casefold sighup p).reload ≡ true)
  unfolding step_process take_turn
  sighup-asked p going e = simp going (e, refl)

  -- What has not ended after some turns had not ended before.
  going_before :
      (ls : List Label) (p : Process)
      → is_over (run_process webhook casefold ls p) ≡ false
      → is_over p ≡ false
  going_before ls p going = elim (Bool-cases (is_over p)) [
    | inl over ↦ absurd (
        true-ne-false
          (sym over ∙ (ap is_over (sym (run_process-over webhook casefold ls p over)) ∙ going)))
    | inr before ↦ before
  ]

  -- A SIGHUP that comes when the reload task waits is not lost: whatever happens up to the task's next turn,
  -- if the watcher has not ended and no shutdown is requested by then, and the file loads, that turn gives the monitor the new polling
  -- settings and every machine the new cooldowns.
  pub signal_reaches_machines :
      (ls : List Label) (new : AppConfig) (p : Process)
      → p.reloader ≡ attentive
      → count_if is_reloader_turn ls ≡ 0
      → let q = run_process webhook casefold (sighup ∷ ls) p in
        is_over q ≡ false
        → q.shutdown ≡ false
        → let r = step_process webhook casefold (reloader_turn (loaded new)) q in
          (r.poll_cfg ≡ new.polling)
          × (r.reloader ≡ attentive)
          × (r.reload ≡ false)
          × All (λ (e : String × Watched). e.1.machine.sm.cooldowns ≡ new.cooldowns) r.servers
  unfolding run_process
  signal_reaches_machines ls new p e none_of going on =
      let (e', asked) = sighup-asked p (going_before (sighup ∷ ls) p going) e in
      reload_turn new (run_process webhook casefold ls (step_process webhook casefold sighup p))
        going on
        (stays_asked webhook casefold ls (step_process webhook casefold sighup p) e' asked none_of)
