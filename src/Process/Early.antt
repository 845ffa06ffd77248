-- ===== src/Process/Early.antt =====
-- crafty_server_watcher/__main__.py: a SIGHUP before the first turn of `_reload_watcher`.
use crafty_server_watcher.Common.{
  Bool-cases, inl, inr, ◌≡◌, refl, ◌∙◌, String, Bool, false, List, [], ◌∷◌, count_if, arith, ◌⊎◌,
  if_rule,
}
use crafty_server_watcher.Config.{AppConfig}
use crafty_server_watcher.Loading.{Loading}
use crafty_server_watcher.Process.{
  Reloader, unbegun, attentive, reloader_end, reloader_failed, Process, is_over,
}
use crafty_server_watcher.Process.Tasks.{
  reloader_at, Label, sighup, reloader_turn, take_turn, step_process, run_process,
}
use crafty_server_watcher.Process.Ending.{run_process-over}
use crafty_server_watcher.Process.Kept.{is_sighup, take_turn-Kept}

-- Nothing was asked for, or the reload task has returned.
abbrev IsQuiet : Process → Type 0
IsQuiet p = (p.reloader ≡ reloader_end) ⊎ (p.reload ≡ false)

abbrev SameSettings : Process → Process → Type 0
SameSettings p q = (q.poll_cfg ≡ p.poll_cfg) × (q.access ≡ p.access)

reloader_at-IsQuiet :
    (casefold : String → String) (file : Loading AppConfig) (r : Reloader) (p : Process)
    → p.reloader ≡ r
    → IsQuiet p
    → IsQuiet (reloader_at casefold file r p) × SameSettings p (reloader_at casefold file r p)
unfolding reloader_at
reloader_at-IsQuiet casefold file unbegun p e h = ground arith
reloader_at-IsQuiet casefold file attentive p e (inl d) = cc
reloader_at-IsQuiet casefold file attentive p e (inr off) = ground arith
reloader_at-IsQuiet casefold file reloader_end p e h = (inl e, (refl, refl))
reloader_at-IsQuiet casefold file reloader_failed p e h = (h, (refl, refl))

module _ (webhook : Bool) (casefold : String → String) where
  take_turn-IsQuiet :
      (l : Label) (p : Process)
      → is_sighup l ≡ false
      → IsQuiet p
      → IsQuiet (take_turn webhook casefold l p) × SameSettings p (take_turn webhook casefold l p)
  unfolding take_turn
  take_turn-IsQuiet sighup p n h = cc
  take_turn-IsQuiet (reloader_turn file) p n h =
      reloader_at-IsQuiet casefold file p.reloader p refl h
  take_turn-IsQuiet l p n h =
      let (r, s, c, a) = take_turn-Kept webhook casefold l p refl refl in
      (elim h [ inl d ↦ inl (r ∙ d) | inr d ↦ inr (s ∙ d) ], (c, a))

  step_process-IsQuiet :
      (l : Label) (p : Process)
      → is_sighup l ≡ false
      → IsQuiet p
      → IsQuiet (step_process webhook casefold l p)
        × SameSettings p (step_process webhook casefold l p)
  unfolding step_process
  step_process-IsQuiet l p n h =
      if_rule (λ q. IsQuiet q × SameSettings p q) (is_over p) p (take_turn webhook casefold l p)
        (h, (refl, refl)) (take_turn-IsQuiet l p n h)

  run_process-SameSettings :
      (ls : List Label) (p : Process)
      → count_if is_sighup ls ≡ 0
      → IsQuiet p
      → SameSettings p (run_process webhook casefold ls p)
  unfolding run_process count_if
  run_process-SameSettings [] p n h = (refl, refl)
  run_process-SameSettings (l ∷ rest) p n h =
      let other : is_sighup l ≡ false = ground arith in
      let none_left : count_if is_sighup rest ≡ 0 = ground arith in
      let (q, (c, a)) = step_process-IsQuiet l p other h in
      let (c', a') =
        run_process-SameSettings rest (step_process webhook casefold l p) none_left q in
      (c' ∙ c, a' ∙ a)

  first_turn :
      (file : Loading AppConfig) (p : Process)
      → p.reloader ≡ unbegun
      → is_over p ≡ false
      → let q =
          step_process webhook casefold
            (reloader_turn file)
            (step_process webhook casefold sighup p) in
        IsQuiet q × SameSettings p q
  unfolding step_process take_turn reloader_at is_over
  first_turn file p e going = ground arith

  -- A SIGHUP that comes before the first turn of the reload task is lost: unless another one follows, the
  -- polling settings and the access controllers stay as they were, whatever happens.
  pub early_signal_is_lost :
      (file : Loading AppConfig) (ls : List Label) (p : Process)
      → p.reloader ≡ unbegun
      → count_if is_sighup ls ≡ 0
      → let q = run_process webhook casefold (sighup ∷ reloader_turn file ∷ ls) p in
        (q.poll_cfg ≡ p.poll_cfg) × (q.access ≡ p.access)
  unfolding run_process
  early_signal_is_lost file ls p e n = elim (Bool-cases (is_over p)) [
    | inl over ↦
        rw (run_process-over webhook casefold (sighup ∷ reloader_turn file ∷ ls) p over)
          (refl, refl)
    | inr going ↦
        let (q, (c, a)) = first_turn file p e going in
        let (c', a') = run_process-SameSettings ls _ n q in (c' ∙ c, a' ∙ a)
  ]
