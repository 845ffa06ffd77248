-- ===== src/Utf8/RoundTrip.antt =====
-- A text that was encoded is decoded to itself.
use Prim.Native.Nat.{compare, Ordering}
use Prim.Native.Char.{Char, char, code, IsLt}
use text.Mathlib.TextEquality.{Char-path}
use crafty_server_watcher.Common.{
  ℕ, suc, ◌+◌, ◌*◌, ◌/◌, ◌%◌, ◌<◌, ◌≤◌, ◌⊎◌, inl, inr, ◌≡◌, refl, ap, ◌∙◌, String, Option, none,
  some, List, ◌∷◌, ◌++◌, ltb, arith, Bool-cases,
}
use crafty_server_watcher.Utf8.{
  encode, encode_code, decode, decode_from, to_char, dec_scalar, Both, Either, put,
}

to_char-code : (c : Char) → to_char (code c) ≡ some c
unfolding to_char
to_char-code (char n p) =
    elim (dec_scalar n)
      as (λ d.
        elim d as (λ _. Option Char) [ yes p ↦ some (char n p) | no _ ↦ none ] ≡ some (char n p)) [
          | yes q ↦ ap some (Char-path (char n q) (char n p) refl)
          | no q ↦ absurd (q p)
        ]

-- How each kind of byte is read.
module _ (s : List ℕ) where
  lead_1 : (n : ℕ) → n < 128 → decode_from (n ∷ s) 0 0 0 ≡ put (to_char n) (decode_from s 0 0 0)
  unfolding decode_from
  lead_1 n h = ground arith

  lead_2 : (a : ℕ) → a < 32 → decode_from ((0xc0 + a) ∷ s) 0 0 0 ≡ decode_from s 1 a 0x80
  unfolding decode_from
  lead_2 a h = ground arith

  lead_3 : (a : ℕ) → a < 16 → decode_from ((0xe0 + a) ∷ s) 0 0 0 ≡ decode_from s 2 a 0x800
  unfolding decode_from
  lead_3 a h = ground arith

  lead_4 : (a : ℕ) → a < 8 → decode_from ((0xf0 + a) ∷ s) 0 0 0 ≡ decode_from s 3 a 0x10000
  unfolding decode_from
  lead_4 a h = ground arith

  middle :
      (k v least r : ℕ)
      → r < 64
      → decode_from ((0x80 + r) ∷ s) (suc (suc k)) v least
        ≡ decode_from s (suc k) (v * 64 + r) least
  unfolding decode_from
  middle k v least r h = ground arith

  last :
      (v least r n : ℕ)
      → r < 64
      → v * 64 + r ≡ n
      → least ≤ n
      → decode_from ((0x80 + r) ∷ s) 1 v least ≡ put (to_char n) (decode_from s 0 0 0)
  unfolding decode_from
  last v least r n h e l = ground arith

decode-code :
    (n : ℕ) (s : List ℕ)
    → n < 0x110000
    → decode_from (encode_code n ++ s) 0 0 0 ≡ put (to_char n) (decode_from s 0 0 0)
decode-code n s h = elim (Bool-cases (ltb n 0x80)) [
  | inl e ↦ rw e (lead_1 s n (ground arith))
  | inr e ↦ rw e (elim (Bool-cases (ltb n 0x800)) [
    | inl e' ↦ rw e' (
        lead_2 _ (n / 64) (ground arith)
        ∙ last s (n / 64) 0x80 (n % 64) n (omega arith) (omega arith) (ground arith))
    | inr e' ↦ rw e' (elim (Bool-cases (ltb n 0x10000)) [
      | inl e'' ↦ rw e'' (
          lead_3 _ (n / 4096) (ground arith)
          ∙ middle _ 0 (n / 4096) 0x800 (n / 64 % 64) (omega arith)
          ∙ last s (n / 4096 * 64 + n / 64 % 64) 0x800 (n % 64) n (omega arith) (omega arith)
              (ground arith))
      | inr e'' ↦ rw e'' (
          lead_4 _ (n / 262144) (omega arith)
          ∙ middle _ 1 (n / 262144) 0x10000 (n / 4096 % 64) (omega arith)
          ∙ middle _ 0 (n / 262144 * 64 + n / 4096 % 64) 0x10000 (n / 64 % 64) (omega arith)
          ∙ last s ((n / 262144 * 64 + n / 4096 % 64) * 64 + n / 64 % 64) 0x10000 (n % 64) n
              (omega arith) (omega arith) (ground arith))
    ])
  ])
]

lt_at : (o : Ordering) → IsLt o → o ≡ Ordering.lt
lt_at Ordering.lt h = refl
lt_at Ordering.eq h = absurd h
lt_at Ordering.gt h = absurd h

lt_at_end : (p q : Ordering) → Both p q → q ≡ Ordering.lt
lt_at_end Ordering.lt q h = lt_at q h
lt_at_end Ordering.eq q h = absurd h
lt_at_end Ordering.gt q h = absurd h

one_is_lt : (o p q : Ordering) → Either o p q → (o ≡ Ordering.lt) ⊎ (q ≡ Ordering.lt)
one_is_lt Ordering.lt p q h = inl refl
one_is_lt Ordering.eq p q h = inr (lt_at_end p q h)
one_is_lt Ordering.gt p q h = inr (lt_at_end p q h)

scalar_bound : (c : Char) → code c < 0x110000
scalar_bound (char n p) =
    elim (one_is_lt (compare n 55296) (compare 57343 n) (compare n 1114112) p) [
      | inl e ↦ ground arith
      | inr e ↦ ground arith
    ]

decode_from-encode : (t : String) → decode_from (encode t) 0 0 0 ≡ some t
unfolding encode decode_from
decode_from-encode String.[] = refl
decode_from-encode (String.◌∷◌ c t) =
    decode-code (code c) (encode t) (scalar_bound c) ∙ simp (to_char-code c, decode_from-encode t)

-- Every text is decoded to itself from the bytes that it was encoded to.
pub decode-encode : (t : String) → decode (encode t) ≡ some t
unfolding decode
decode-encode t = decode_from-encode t
