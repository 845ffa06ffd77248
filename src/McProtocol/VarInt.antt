-- ===== src/McProtocol/VarInt.antt =====
-- A VarInt that was written is read back.
use crafty_server_watcher.Common.{
  ℕ, zero, suc, ◌+◌, ◌-◌, ◌*◌, ◌/◌, ◌%◌, ◌^◌, ◌≡◌, ◌<◌, List, ◌∷◌, ◌++◌, ℤ, pos, negsuc, ◌+ℤ◌, ◌≤ℤ◌,
  ◌<ℤ◌, arith, bit_and, bit_or, bit_and_low, bit_or_disjoint, bit_and_one_bit, set_top_bit, ap, ◌∙◌,
  inl, inr, Bool-cases, ◌==◌,
}
use native.Mathlib.Numerals.{towards_suc}
use crafty_server_watcher.McProtocol.{
  ok, Read, read_varint_loop, sign_extend, read_varint, ◌>>=◌, and_then, return, write_varint_loop,
  write_varint,
}

-- One round of the loop on a last byte, and on a byte with the top bit set over a group of seven.
last_byte :
    (k shift result b : ℕ) (rest : List ℕ)
    → b < 128
    → result < 2 ^ shift
    → read_varint_loop (suc k) shift result (b ∷ rest) ≡ ok (result + b * 2 ^ shift, rest)
unfolding read_varint_loop
last_byte k shift result b rest hb hr =
    ground (arith, bit_and_low b, bit_and_one_bit 7 b, bit_or_disjoint shift result b)

inner_byte :
    (k shift result g : ℕ) (rest : List ℕ)
    → g < 128
    → result < 2 ^ shift
    → read_varint_loop (suc k) shift result (bit_or g 0x80 ∷ rest)
      ≡ read_varint_loop k (shift + 7) (result + g * 2 ^ shift) rest
unfolding read_varint_loop
inner_byte k shift result g rest hg hr =
    let low : bit_and (g + 128) 0x7f ≡ g = omega (arith, bit_and_low (g + 128)) in
    let top : bit_and (g + 128) 0x80 ≡ 128 = omega (arith, bit_and_one_bit 7 (g + 128)) in
    rw (set_top_bit g hg) (rw (top, low) (rw (bit_or_disjoint shift result g hr)))

-- What lies seven bits higher weighs 128 times as much.
weight : (high low s : ℕ) → (128 * high + low) * 2 ^ s ≡ low * 2 ^ s + high * 2 ^ (s + 7)
weight high low s =
    let seven : 2 ^ (s + 7) ≡ 128 * 2 ^ s = simp towards_suc (omega arith) in rw seven (grind arith)

group_fits : (result g s : ℕ) → result < 2 ^ s → g < 128 → result + g * 2 ^ s < 2 ^ (s + 7)
group_fits result g s h hg = grind (arith, weight 1 0 s)

read-write_loop :
    (k n shift result : ℕ) (rest : List ℕ)
    → n < 128 ^ suc k
    → result < 2 ^ shift
    → read_varint_loop (suc k) shift result (write_varint_loop (suc k) (pos n) ++ rest)
      ≡ ok (result + n * 2 ^ shift, rest)
unfolding write_varint_loop
read-write_loop zero n shift result rest hn hr =
    let low : bit_and n 0x7f ≡ n = omega (arith, bit_and_low n) in
    let done : n / 128 ≡ 0 = omega arith in
    rw (done, low) (last_byte zero shift result n rest hn hr)
read-write_loop (suc k) n shift result rest hn hr = elim (Bool-cases (n / 128 == 0)) [
  | inl done ↦
      let small : n < 128 = ground arith in
      let low : bit_and n 0x7f ≡ n = omega (arith, bit_and_low n) in
      rw (done, low) (last_byte (suc k) shift result n rest small hr)
  | inr more ↦
      rw (more, bit_and_low n)
        (inner_byte (suc k) shift result (n % 128) _ (omega arith) hr
          ∙ read-write_loop k (n / 128) (shift + 7) (result + n % 128 * 2 ^ shift) rest
              (omega arith) (group_fits result (n % 128) shift hr (omega arith))
          ∙ ap (λ (t : ℕ). ok (t, rest)) (grind (arith, weight (n / 128) (n % 128) shift)))
]

-- The numbers of 32 bits, with their sign.
abbrev pub IsInt32 : ℤ → Type 0
IsInt32 v = (negsuc (2 ^ 31 - 1) ≤ℤ v) × (v <ℤ pos (2 ^ 31))

-- The number that `write_varint` encodes, as one without a sign.
abbrev unsigned : ℤ → ℕ
unsigned (pos n) = n
unsigned (negsuc n) = 2 ^ 32 - suc n

write-unsigned : (v : ℤ) → IsInt32 v → write_varint v ≡ write_varint_loop 5 (pos (unsigned v))
unfolding write_varint ◌+ℤ◌
write-unsigned (pos n) h = ground arith
write-unsigned (negsuc n) h = ap (λ (v : ℤ). write_varint_loop 5 v) (ground arith)

unsigned_fits : (v : ℤ) → IsInt32 v → unsigned v < 128 ^ 5
unsigned_fits (pos n) h = ground arith
unsigned_fits (negsuc n) h = omega arith

sign_extend-unsigned : (v : ℤ) → IsInt32 v → sign_extend (unsigned v) ≡ v
unfolding sign_extend
sign_extend-unsigned (pos n) h = ground (arith, bit_and_one_bit 31 n)
sign_extend-unsigned (negsuc n) h = ground (arith, bit_and_one_bit 31 (2 ^ 32 - suc n))

pub after_read :
    {A B : Type 0} (m : Read A) (f : A → Read B) {s : List ℕ} {a : A} {rest : List ℕ}
    → m s ≡ ok (a, rest)
    → (m >>= f) s ≡ f a rest
after_read m f h = ap (λ r. and_then r f) h

-- Every number of 32 bits, negative ones included, is read back from what was written for it, and
-- reading stops just behind it.
pub read-write_varint :
    (v : ℤ) (rest : List ℕ) → IsInt32 v → read_varint (write_varint v ++ rest) ≡ ok (v, rest)
unfolding read_varint
read-write_varint v rest h =
    let loop : read_varint_loop 5 0 0 (write_varint v ++ rest) ≡ ok (unsigned v, rest) =
      rw (write-unsigned v h) (
        read-write_loop 4 (unsigned v) 0 0 rest (unsigned_fits v h) (omega arith)
        ∙ ap (λ (t : ℕ). ok (t, rest)) (omega arith)) in
    after_read (read_varint_loop 5 0 0) (λ result. return (sign_extend result)) loop
    ∙ ap (λ (t : ℤ). ok (t, rest)) (sign_extend-unsigned v h)
