-- ===== src/RakNet.antt =====
-- crafty_server_watcher/bedrock_protocol.py: the RakNet packets of the Bedrock proxy. Bytes are numbers below 256.
pub mod Echo
use Prim.Native.String.{◌++◌ as ◌+++◌}
use crafty_server_watcher.Common.{
  ℕ, suc, ◌+◌, ◌-◌, ◌*◌, ◌/◌, ◌%◌, ◌^◌, String, Bool, true, false, not, ◌&&◌, ◌||◌, Option, none,
  some, List, [], ◌∷◌, ◌++◌, if◌then◌else◌, ◌==◌, ltb, length, take, drop, ℤ, pos, negsuc, sub_ℕ,
}
use crafty_server_watcher.Utf8.{encode}
use crafty_server_watcher.Text.{join}
use crafty_server_watcher.JsonText.{str_of_int}

abbrev pub raknet_magic : List ℕ
raknet_magic =
    0x00 ∷ 0xff ∷ 0xff ∷ 0x00 ∷ 0xfe ∷ 0xfe ∷ 0xfe ∷ 0xfe ∷ 0xfd ∷ 0xfd ∷ 0xfd ∷ 0xfd ∷ 0x12 ∷ 0x34
    ∷ 0x56 ∷ 0x78 ∷ []

abbrev pub same_bytes : List ℕ → List ℕ → Bool
same_bytes [] [] = true
same_bytes (a ∷ xs) (b ∷ ys) = a == b && same_bytes xs ys
same_bytes _ _ = false

-- `data[from:to]`
abbrev pub slice : ℕ → ℕ → List ℕ → List ℕ
slice from to bytes = take (to - from) (drop from bytes)

abbrev pub first_is : ℕ → List ℕ → Bool
first_is id [] = false
first_is id (b ∷ _) = b == id

-- `struct.unpack(">Q", …)` and `struct.pack(">Q", …)` of 8 bytes.
abbrev pub unpack_on : ℕ → List ℕ → ℕ
unpack_on acc [] = acc
unpack_on acc (b ∷ rest) = unpack_on (acc * 256 + b) rest

unfoldable pub unpack_64 : List ℕ → ℕ
unpack_64 bytes = unpack_on 0 bytes

unfoldable pub pack_64 : ℕ → List ℕ
pack_64 n =
    (n / 2 ^ 56)
    ∷ (n / 2 ^ 48 % 256)
    ∷ (n / 2 ^ 40 % 256)
    ∷ (n / 2 ^ 32 % 256)
    ∷ (n / 2 ^ 24 % 256)
    ∷ (n / 2 ^ 16 % 256)
    ∷ (n / 2 ^ 8 % 256)
    ∷ (n % 256)
    ∷ []

-- `">q"`: with a sign.
unfoldable pub unpack_signed : List ℕ → ℤ
unpack_signed bytes = let n = unpack_64 bytes in if ltb n (2 ^ 63) then pos n else sub_ℕ n (2 ^ 64)

abbrev unsigned_64 : ℤ → ℕ
unsigned_64 (pos n) = n
unsigned_64 (negsuc n) = 2 ^ 64 - suc n

unfoldable pub pack_signed : ℤ → List ℕ
pack_signed n = pack_64 (unsigned_64 n)

-- `struct.pack(">H", n)`, which raises struct.error for more than 16 bits.
abbrev pack_16 : ℕ → Option (List ℕ)
pack_16 n = if ltb n 65536 then some ((n / 256) ∷ (n % 256) ∷ []) else none

unfoldable pub parse_unconnected_ping : List ℕ → Option (ℕ × ℤ)
parse_unconnected_ping bytes =
    if ltb (length bytes) 33 || not (first_is 0x01 bytes)
    then none
    else if not (same_bytes (slice 9 25 bytes) raknet_magic)
    then none
    else some (unpack_64 (slice 1 9 bytes), unpack_signed (slice 25 33 bytes))

-- The `server_name` of `build_unconnected_pong`, with the versions that are its defaults.
unfoldable pub server_name : ℤ → String → ℤ → ℤ → ℤ → String
unfolding join
server_name guid motd players_online max_players port_v4 = join ";" (
    "MCPE"
    ∷ motd
    ∷ str_of_int (pos 729)
    ∷ "1.21.80"
    ∷ str_of_int players_online
    ∷ str_of_int max_players
    ∷ str_of_int guid
    ∷ motd
    ∷ "Survival"
    ∷ "1"
    ∷ str_of_int port_v4
    ∷ str_of_int (pos 19133)
    ∷ [])

with_length : ℕ → ℤ → List ℕ → Option (List ℕ) → Option (List ℕ)
with_length client_time guid name none = none
with_length client_time guid name (some size) =
    some (0x1c ∷ pack_64 client_time ++ (pack_signed guid ++ (raknet_magic ++ (size ++ name))))

-- `none` stands for the struct.error of a name that is too long.
unfoldable pub build_unconnected_pong : ℕ → ℤ → String → ℤ → ℤ → ℤ → Option (List ℕ)
unfolding with_length
build_unconnected_pong client_time guid motd players_online max_players port_v4 =
    let name = encode (server_name guid motd players_online max_players port_v4) in
    with_length client_time guid name (pack_16 (length name))

unfoldable pub build_incompatible_protocol : ℤ → List ℕ
build_incompatible_protocol guid = 0x19 ∷ 11 ∷ raknet_magic ++ pack_signed guid

unfoldable pub is_open_connection_request_1 : List ℕ → Bool
is_open_connection_request_1 bytes =
    if ltb (length bytes) 25 || not (first_is 0x05 bytes)
    then false
    else same_bytes (slice 1 17 bytes) raknet_magic
