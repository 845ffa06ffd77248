-- ===== src/McProtocol.antt =====
-- crafty_server_watcher/mc_protocol.py: numbers, texts and packets of the Minecraft protocol.
-- Bytes are numbers below 256; a stream is what is left of it, and reading returns the rest.
pub mod VarInt
pub mod Packets
use crafty_server_watcher.Common.{
  ℕ, zero, suc, ◌+◌, ◌-◌, ◌*◌, ◌/◌, ◌%◌, ◌^◌, Bool, List, [], ◌∷◌, ◌++◌, if◌then◌else◌, ◌==◌, ltb,
  leb, not, length, take, drop, ℤ, pos, negsuc, sub_ℕ, ◌+ℤ◌, ltb_ℤ, leb_ℤ, bit_and, bit_or,
}

-- How reading fails: an EOFError (IncompleteReadError from the socket), a ValueError, and a text
-- that is not UTF-8.
pub data Fault : Type 0 where
  eof bad_value bad_text : Fault

pub data Result {ℓ} (A : Type ℓ) : Type ℓ where
  ok : A → Result A
  err : Fault → Result A

-- A read from a stream: its value and the rest of the stream.
abbrev pub Read : Type 0 → Type 0
Read A = List ℕ → Result (A × List ℕ)

abbrev pub and_then : {A B : Type 0} → Result (A × List ℕ) → (A → Read B) → Result (B × List ℕ)
and_then (ok (a, rest)) f = f a rest
and_then (err e) f = err e

infixl 5 ◌>>=◌
abbrev pub ◌>>=◌ : {A B : Type 0} → Read A → (A → Read B) → Read B
◌>>=◌ m f s = and_then (m s) f

abbrev pub return : {A : Type 0} → A → Read A
return a s = ok (a, s)

abbrev pub fail : {A : Type 0} → Fault → Read A
fail e s = err e

-- The rounds left of the loop, `7 * i`, `result`, and the stream.
unfoldable pub read_varint_loop : ℕ → ℕ → ℕ → Read ℕ
read_varint_loop zero shift result s = err bad_value
read_varint_loop (suc k) shift result [] = err eof
read_varint_loop (suc k) shift result (b ∷ s) =
    let result' = bit_or result (bit_and b 0x7f * 2 ^ shift) in
    let more = read_varint_loop k (shift + 7) result' s in
    if bit_and b 0x80 == 0 then ok (result', s) else more

-- `if result & (1 << 31): result -= 1 << 32`
unfoldable pub sign_extend : ℕ → ℤ
sign_extend result = if bit_and result (2 ^ 31) == 0 then pos result else sub_ℕ result (2 ^ 32)

-- `read_varint`, and `_read_varint_async` on the bytes that the socket delivers.
unfoldable pub read_varint : Read ℤ
read_varint = do result ← read_varint_loop 5 0 0; return (sign_extend result)

-- `value & 0x7F` and `value >>= 7`, of a negative number too.
unfoldable pub low_group : ℤ → ℕ
low_group (pos n) = bit_and n 0x7f
low_group (negsuc n) = 0x7f - bit_and n 0x7f

unfoldable pub next_groups : ℤ → ℤ
next_groups (pos n) = pos (n / 128)
next_groups (negsuc n) = negsuc (n / 128)

abbrev is_zero : ℤ → Bool
is_zero (pos n) = n == 0
is_zero (negsuc n) = Bool.false

-- The rounds left of the loop, and `value`.
unfoldable pub write_varint_loop : ℕ → ℤ → List ℕ
unfolding low_group next_groups
write_varint_loop zero value = []
write_varint_loop (suc k) value =
    let byte = low_group value in
    let more = write_varint_loop k (next_groups value) in
    if is_zero (next_groups value) then byte ∷ [] else bit_or byte 0x80 ∷ more

unfoldable pub write_varint : ℤ → List ℕ
write_varint value =
    write_varint_loop 5 (if ltb_ℤ value (pos 0) then value +ℤ pos (2 ^ 32) else value)

-- `stream.read(n)`: up to n bytes, or all that is left for a negative n.
unfoldable pub read_bytes : ℤ → Read (List ℕ)
read_bytes (pos n) s = ok (take n s, drop n s)
read_bytes (negsuc n) s = ok (s, [])

unfoldable pub read_unsigned_short : Read ℕ
read_unsigned_short (hi ∷ lo ∷ s) = ok (hi * 256 + lo, s)
read_unsigned_short _ = err eof
