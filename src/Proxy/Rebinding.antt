-- ===== src/Proxy/Rebinding.antt =====
-- The loop of `_start_listener` ends.
use crafty_server_watcher.Common.{
  ℕ, zero, suc, ◌+◌, ◌≤◌, ◌<◌, ◌≡◌, refl, Bool, true, false, List, [], ◌∷◌, if◌then◌else◌, length,
  take, arith,
}
use crafty_server_watcher.Proxy.{
  Slot, resting, binding, is_resting, start_listener, bind_answered, pause_over, attempt,
}

-- The loop, given whether the port can be bound at each attempt, with nothing else running at its
-- `await`s.
unfoldable pub rebind : List Bool → Slot → Slot
rebind [] p = p
rebind (bound ∷ rest) p = rebind rest (pause_over (bind_answered bound p))

abbrev pub any_of : List Bool → Bool
any_of [] = false
any_of (b ∷ rest) = if b then true else any_of rest

-- One turn: an attempt and the pause after it.
module _ (p : Slot) where
  turn_resting : (bound : Bool) → p.rebind ≡ resting → pause_over (bind_answered bound p) ≡ p
  unfolding bind_answered pause_over
  turn_resting bound r = ground arith

  turn_bound :
      (n : ℕ)
      → p.rebind ≡ binding n
      → pause_over (bind_answered true p) ≡ record p { listening = true; rebind = resting }
  unfolding bind_answered pause_over
  turn_bound n r = ground arith

  turn_failed :
      (n : ℕ)
      → p.rebind ≡ binding n
      → p.lockout ≡ false
      → n < 14
      → pause_over (bind_answered false p) ≡ record p { rebind = binding (suc n) }
  unfolding bind_answered pause_over attempt
  turn_failed n r o h = ground arith

  turn_given_up :
      p.rebind ≡ binding 14 → pause_over (bind_answered false p) ≡ record p { rebind = resting }
  unfolding bind_answered pause_over
  turn_given_up r = ground arith

rebind_resting : (outcomes : List Bool) (p : Slot) → p.rebind ≡ resting → rebind outcomes p ≡ p
unfolding rebind
rebind_resting [] p r = refl
rebind_resting (bound ∷ rest) p r = rw (turn_resting p bound r) (rebind_resting rest p r)

-- With the n-th attempt in flight, `left` more after it.
rebind_from :
    (left n : ℕ) (outcomes : List Bool) (p : Slot)
    → n + left ≡ 14
    → suc left ≤ length outcomes
    → p.rebind ≡ binding n
    → p.listening ≡ false
    → p.lockout ≡ false
    → ((rebind outcomes p).rebind ≡ resting)
      × ((rebind outcomes p).listening ≡ any_of (take (suc left) outcomes))
unfolding rebind
rebind_from left n [] p s l r f o = absurd (omega arith)
rebind_from left n (true ∷ rest) p s l r f o =
    rw (turn_bound p n r, rebind)
      (rw (rebind_resting rest (record p { listening = true; rebind = resting }) refl) (refl, refl))
rebind_from zero n (false ∷ rest) p s l r f o =
    let last : n ≡ 14 = omega arith in
    rw (turn_given_up p (rw last at r), rebind)
      (rw (rebind_resting rest (record p { rebind = resting }) refl) (refl, f))
rebind_from (suc left) n (false ∷ rest) p s l r f o =
    rw (turn_failed p n r o (omega arith), rebind)
      (rebind_from left (suc n) rest (record p { rebind = binding (suc n) }) (omega arith)
        (omega arith) refl f o)

-- The loop that `_start_listener` begins for a server that is not locked out, does not listen and
-- is not being bound ends after at most 15 attempts when no other task comes between, and then the
-- proxy listens exactly if one of the first 15 bound the port.
pub rebinding_ends :
    (outcomes : List Bool) (p : Slot)
    → is_resting p.rebind ≡ true
    → p.listening ≡ false
    → p.lockout ≡ false
    → 15 ≤ length outcomes
    → let q = rebind outcomes (start_listener p) in
      (q.rebind ≡ resting) × (q.listening ≡ any_of (take 15 outcomes))
unfolding start_listener attempt
rebinding_ends outcomes p r f o long =
    let begun : start_listener p ≡ record p { rebind = binding 0 } = ground arith in
    rw begun (rebind_from 14 0 outcomes (record p { rebind = binding 0 }) refl long refl f o)
