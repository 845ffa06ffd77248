-- ===== src/Utf8.antt =====
-- Python's `str.encode("utf-8")` and the strict `bytes.decode("utf-8")`, on texts of Unicode scalars.
pub mod RoundTrip
use Prim.Native.Nat.{compare, Ordering}
use Prim.Native.Char.{Char, char, code, IsLt, IsScalar}
use crafty_server_watcher.Common.{
  ℕ, zero, suc, ◌+◌, ◌-◌, ◌*◌, ◌/◌, ◌%◌, String, Bool, true, false, not, ◌&&◌, Option, none, some,
  List, [], ◌∷◌, ◌++◌, if◌then◌else◌, ◌==◌, ltb, leb,
}

-- The code points of a text.
abbrev pub codes : String → List ℕ
codes String.[] = []
codes (String.◌∷◌ c s) = code c ∷ codes s

abbrev pub encode_code : ℕ → List ℕ
encode_code n =
    if ltb n 0x80
    then n ∷ []
    else if ltb n 0x800
    then (0xc0 + n / 64) ∷ (0x80 + n % 64) ∷ []
    else if ltb n 0x10000
    then (0xe0 + n / 4096) ∷ (0x80 + n / 64 % 64) ∷ (0x80 + n % 64) ∷ []
    else (0xf0 + n / 262144) ∷ (0x80 + n / 4096 % 64) ∷ (0x80 + n / 64 % 64) ∷ (0x80 + n % 64) ∷ []

unfoldable pub encode : String → List ℕ
encode String.[] = []
encode (String.◌∷◌ c s) = encode_code (code c) ++ encode s

-- A number as a character, if it is one.
abbrev pub Both : Ordering → Ordering → Type 0
Both Ordering.lt o = IsLt o
Both Ordering.eq _ = ⊥
Both Ordering.gt _ = ⊥

abbrev pub Either : Ordering → Ordering → Ordering → Type 0
Either Ordering.lt _ _ = Unit {0}
Either Ordering.eq o p = Both o p
Either Ordering.gt o p = Both o p

dec_lt_at : (o : Ordering) → Dec (IsLt o)
dec_lt_at Ordering.lt = yes tt
dec_lt_at Ordering.eq = no (λ h. h)
dec_lt_at Ordering.gt = no (λ h. h)

dec_both : (o p : Ordering) → Dec (Both o p)
dec_both Ordering.lt p = dec_lt_at p
dec_both Ordering.eq p = no (λ h. h)
dec_both Ordering.gt p = no (λ h. h)

dec_either : (o p q : Ordering) → Dec (Either o p q)
dec_either Ordering.lt p q = yes tt
dec_either Ordering.eq p q = dec_both p q
dec_either Ordering.gt p q = dec_both p q

dec_scalar : (n : ℕ) → Dec (IsScalar n)
dec_scalar n = dec_either (compare n 55296) (compare 57343 n) (compare n 1114112)

unfoldable pub to_char : ℕ → Option Char
unfolding dec_scalar dec_either dec_both dec_lt_at
to_char n = elim (dec_scalar n) [ yes p ↦ some (char n p) | no _ ↦ none ]

-- What a byte means to the decoder, which waits for `pending` more bytes of a character that is
-- `value` up to here and must reach `least`: more bytes are due, or the character is there.
pub data Reading : Type 0 where
  bad : Reading
  due : ℕ → ℕ → ℕ → Reading
  whole : ℕ → Reading

first_byte : ℕ → Reading
first_byte b =
    if ltb b 0x80
    then whole b
    else if ltb b 0xc0
    then bad
    else if ltb b 0xe0
    then due 1 (b - 0xc0) 0x80
    else if ltb b 0xf0
    then due 2 (b - 0xe0) 0x800
    else if ltb b 0xf8
    then due 3 (b - 0xf0) 0x10000
    else bad

next_byte : ℕ → ℕ → ℕ → ℕ → Reading
unfolding first_byte
next_byte zero value least b = first_byte b
next_byte (suc k) value least b =
    let value' = value * 64 + (b - 0x80) in
    if not (leb 0x80 b && ltb b 0xc0)
    then bad
    else if not (k == 0)
    then due k value' least
    else if ltb value' least
    then bad
    else whole value'

put : Option Char → Option String → Option String
put (some c) (some s) = some (String.◌∷◌ c s)
put _ _ = none

go_on : Reading → (ℕ → ℕ → ℕ → Option String) → Option String
unfolding put
go_on bad next = none
go_on (due k value least) next = next k value least
go_on (whole n) next = put (to_char n) (next 0 0 0)

decode_from : List ℕ → ℕ → ℕ → ℕ → Option String
unfolding go_on next_byte
decode_from [] zero value least = some ""
decode_from [] (suc k) value least = none
decode_from (b ∷ s) k value least = go_on (next_byte k value least b) (decode_from s)

unfoldable pub decode : List ℕ → Option String
unfolding decode_from
decode s = decode_from s 0 0 0
