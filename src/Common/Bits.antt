-- ===== src/Common/Bits.antt =====
-- Python's `&` and `|` on whole numbers, as arithmetic.
use Prim.Native.Nat.{
  ℕ, zero, suc, ◌+◌, ◌-◌, ◌*◌, ◌/◌, ◌%◌, ◌^◌, ◌≤◌, ◌<◌, min, max, bit_and, bit_or, digits, bitwise,
  bit_and-bitwise, bit_or-bitwise,
}
use mathlib.Core.Path.{◌≡◌, refl, sym, ap, ◌∙◌}
use native.Mathlib.Omega.{arith}
use native.Mathlib.Nat.{pow-suc, pow-succ', div-div-eq-div-mul, div-add-mod}

-- The recursion on digits that both operations are, by the operation on two digits and the value
-- once the first number has no digits left, which agree with each other on a first digit 0.
module _ (at_end : ℕ → ℕ) (op : ℕ → ℕ → ℕ)
    (agree : (b : ℕ) → at_end b ≡ at_end (b / 2) * 2 + op 0 (b % 2)) where
  one_more : (n a b : ℕ) → a ≤ n → digits at_end op (suc n) a b ≡ digits at_end op n a b
  one_more zero zero b h = refl
  one_more zero (suc a) b h = absurd (omega arith)
  one_more (suc n) zero b h = refl
  one_more (suc n) (suc a) b h = omega (arith, one_more n (suc a / 2) (b / 2) (omega arith))

  any_more : (extra n a b : ℕ) → a ≤ n → digits at_end op (extra + n) a b ≡ digits at_end op n a b
  any_more zero n a b h = ap (λ (m : ℕ). digits at_end op m a b) (omega arith)
  any_more (suc extra) n a b h =
      ap (λ (m : ℕ). digits at_end op m a b) {y = suc (extra + n)} (omega arith)
      ∙ one_more (extra + n) a b (omega arith)
      ∙ any_more extra n a b h

  halves : ℕ → ℕ → ℕ
  halves a b = digits at_end op (a / 2) (a / 2) (b / 2)

  by_halves : (a b : ℕ) → digits at_end op a a b ≡ halves a b * 2 + op (a % 2) (b % 2)
  unfolding halves
  by_halves zero b = agree b
  by_halves (suc a) b =
      let enough : digits at_end op a (suc a / 2) (b / 2) ≡ halves (suc a) b =
        ap (λ (n : ℕ). digits at_end op n (suc a / 2) (b / 2)) (omega arith)
        ∙ any_more (a - suc a / 2) (suc a / 2) (suc a / 2) (b / 2) (omega arith) in
      ap (λ (t : ℕ). t * 2 + op (suc a % 2) (b % 2)) enough

zero-bit_and : (b : ℕ) → bit_and 0 b ≡ 0
zero-bit_and b = bit_and-bitwise 0 b

zero-bit_or : (b : ℕ) → bit_or 0 b ≡ b
zero-bit_or b = bit_or-bitwise 0 b

bit_and_step : (a b : ℕ) → bit_and a b ≡ min (a % 2) (b % 2) + 2 * bit_and (a / 2) (b / 2)
unfolding halves
bit_and_step a b =
    let split : bitwise (λ b. 0) min a b
        ≡ bitwise (λ b. 0) min (a / 2) (b / 2) * 2 + min (a % 2) (b % 2) =
      by_halves (λ b. 0) min (λ b. omega arith) a b in
    omega (arith, split, bit_and-bitwise a b, bit_and-bitwise (a / 2) (b / 2))

bit_or_step : (a b : ℕ) → bit_or a b ≡ max (a % 2) (b % 2) + 2 * bit_or (a / 2) (b / 2)
unfolding halves
bit_or_step a b =
    let split : bitwise (λ b. b) max a b
        ≡ bitwise (λ b. b) max (a / 2) (b / 2) * 2 + max (a % 2) (b % 2) =
      by_halves (λ b. b) max (λ b. omega arith) a b in
    omega (arith, split, bit_or-bitwise a b, bit_or-bitwise (a / 2) (b / 2))

bit_and-zero_within : (a most : ℕ) → a ≤ most → bit_and a 0 ≡ 0
bit_and-zero_within zero most h = zero-bit_and 0
bit_and-zero_within (suc a) zero h = absurd (omega arith)
bit_and-zero_within (suc a) (suc most) h =
    let rest : bit_and (suc a / 2) 0 ≡ 0 = bit_and-zero_within (suc a / 2) most (omega arith) in
    omega (arith, rest, bit_and_step (suc a) 0)

pub bit_and-zero : (a : ℕ) → bit_and a 0 ≡ 0
bit_and-zero a = bit_and-zero_within a a (omega arith)

-- The number whose lowest k digits are ones.
abbrev ones : ℕ → ℕ
ones zero = 0
ones (suc k) = 1 + 2 * ones k

half_ones : (t : ℕ) → (1 + 2 * t) / 2 ≡ t
half_ones t = omega arith

lowest_of_ones : (a t : ℕ) → min (a % 2) ((1 + 2 * t) % 2) ≡ a % 2
lowest_of_ones a t = omega arith

mod_double : (a c : ℕ) → a % (2 * c) ≡ a / 2 % c * 2 + a % 2
mod_double a c =
    let outer : 2 * c * (a / 2 / c) + a % (2 * c) ≡ a =
      ap (λ (q : ℕ). 2 * c * q + a % (2 * c)) (div-div-eq-div-mul a 2 c) ∙ div-add-mod a (2 * c) in
    let inner : c * (a / 2 / c) + a / 2 % c ≡ a / 2 = div-add-mod (a / 2) c in
    let product : 2 * c * (a / 2 / c) ≡ 2 * (c * (a / 2 / c)) = grind arith in
    omega (arith, outer, inner, product)

-- A mask of ones keeps as many digits.
bit_and-ones : (k a : ℕ) → bit_and a (ones k) ≡ a % 2 ^ k
bit_and-ones zero a = omega (arith, bit_and-zero a)
bit_and-ones (suc k) a = rw pow-succ' (
    rw
      (
        mod_double a (2 ^ k),
        bit_and_step a (1 + 2 * ones k),
        half_ones (ones k),
        lowest_of_ones a (ones k),
      )
      (omega (arith, bit_and-ones k (a / 2))))

pub bit_and_low : (a : ℕ) → bit_and a 0x7f ≡ a % 128
bit_and_low a = bit_and-ones 7 a

doubled : (g k : ℕ) → g * 2 ^ suc k ≡ g * 2 ^ k + g * 2 ^ k
doubled g k = rw pow-suc (grind arith)

half-add : (t : ℕ) → (t + t) / 2 ≡ t
half-add t = omega arith

bit_or_double : (r t : ℕ) → bit_or r (t + t) ≡ bit_or (r / 2) t * 2 + r % 2
bit_or_double r t = rw (bit_or_step r (t + t)) (rw half-add (omega arith))

bit_and_double : (r t : ℕ) → bit_and r (t + t) ≡ bit_and (r / 2) t * 2
bit_and_double r t = rw (bit_and_step r (t + t)) (rw half-add (omega arith))

-- Bits that do not meet add up.
pub bit_or_disjoint : (k r g : ℕ) → r < 2 ^ k → bit_or r (g * 2 ^ k) ≡ r + g * 2 ^ k
bit_or_disjoint zero zero g h = omega (arith, zero-bit_or (g * 2 ^ 0))
bit_or_disjoint zero (suc r) g h = absurd (omega arith)
bit_or_disjoint (suc k) r g h =
    let e : g * 2 ^ suc k ≡ g * 2 ^ k + g * 2 ^ k = doubled g k in
    let d : 1 * 2 ^ suc k ≡ 1 * 2 ^ k + 1 * 2 ^ k = doubled 1 k in
    rw e
      (omega (arith, bit_or_double r (g * 2 ^ k), bit_or_disjoint k (r / 2) g (omega (arith, d))))

pow_double : (k : ℕ) → 2 ^ suc k ≡ 2 ^ k + 2 ^ k
pow_double k = rw pow-suc (grind arith)

div_pow_suc : (a k : ℕ) → a / 2 ^ suc k ≡ a / 2 / 2 ^ k
div_pow_suc a k = rw pow-succ' (sym (div-div-eq-div-mul a 2 (2 ^ k)))

doubled_product : (m t : ℕ) → m * (t + t) ≡ m * t * 2
doubled_product m t = grind arith

-- A mask of one bit picks that bit.
pub bit_and_one_bit : (k a : ℕ) → bit_and a (2 ^ k) ≡ a / 2 ^ k % 2 * 2 ^ k
bit_and_one_bit zero a = omega (arith, bit_and_step a 1, bit_and-zero (a / 2))
bit_and_one_bit (suc k) a = rw (div_pow_suc a k) (
    rw pow_double (
      omega (
        arith,
        bit_and_double a (2 ^ k),
        bit_and_one_bit k (a / 2),
        doubled_product (a / 2 / 2 ^ k % 2) (2 ^ k),
      )))

pub set_top_bit : (b : ℕ) → b < 128 → bit_or b 0x80 ≡ b + 128
set_top_bit b h = bit_or_disjoint 7 b 1 h
