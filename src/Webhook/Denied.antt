-- ===== src/Webhook/Denied.antt =====
-- Every refused login is counted once, and the messages keep their distance.
use crafty_server_watcher.Common.{
  ℕ, suc, ◌+◌, ◌≡◌, refl, Option, none, some, List, [], ◌∷◌, ℤ, ◌-ℤ◌, ◌≤ℤ◌, arith, length,
}
use crafty_server_watcher.Webhook.{Denials, notify_denied}

module _ (cooldown : ℤ) where
  -- The refused logins at these times, oldest first: what is held at the end, and the messages sent,
  -- each with its time and the count that it reports.
  unfoldable pub attempts : List ℤ → Denials → Denials × List (ℤ × ℕ)
  attempts [] d = (d, [])
  attempts (now ∷ rest) d =
      let (d', sent) = notify_denied cooldown now d in
      let (d'', others) = attempts rest d' in
      (d'', elim sent [ none ↦ others | some count ↦ (now, count) ∷ others ])

  -- The logins that the messages stand for: the one that each names and those it counts.
  abbrev pub reported : List (ℤ × ℕ) → ℕ
  reported [] = 0
  reported ((t, count) ∷ rest) = suc count + reported rest

  -- Every refused login is named by a message, counted in one, or still held to be counted in the
  -- next: none is lost and none counts twice.
  pub every_denial_counts :
      (times : List ℤ) (d : Denials)
      → let (d', messages) = attempts times d in
        reported messages + d'.suppressed ≡ length times + d.suppressed
  unfolding attempts notify_denied
  every_denial_counts [] d = refl
  every_denial_counts (now ∷ rest) d = ground (
    arith,
    every_denial_counts rest (record d { suppressed = suc d.suppressed }),
    every_denial_counts rest (record { last = some now; suppressed = 0 }),
  )

  abbrev pub IsAfter : Option ℤ → List (ℤ × ℕ) → Type 0
  IsAfter last [] = Unit {0}
  IsAfter none ((t, count) ∷ rest) = IsAfter (some t) rest
  IsAfter (some last) ((t, count) ∷ rest) = (cooldown ≤ℤ (t -ℤ last)) × IsAfter (some t) rest

  -- Between two messages about the same server lies at least the cooldown.
  pub messages_are_spaced : (times : List ℤ) (d : Denials) → IsAfter d.last (attempts times d).1
  unfolding attempts notify_denied
  messages_are_spaced [] d = tt
  messages_are_spaced (now ∷ rest) d = ground (
    arith,
    messages_are_spaced rest (record d { suppressed = suc d.suppressed }),
    messages_are_spaced rest (record { last = some now; suppressed = 0 }),
  )
