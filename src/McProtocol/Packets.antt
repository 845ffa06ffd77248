-- ===== src/McProtocol/Packets.antt =====
-- Texts, packets and the parsed packets of mc_protocol.py.
pub mod RoundTrip
use crafty_server_watcher.Common.{
  ℕ, zero, suc, ◌+◌, ◌*◌, String, Bool, true, false, not, ◌||◌, Option, none, some, List, [], ◌∷◌,
  ◌++◌, if◌then◌else◌, ltb, length, take, drop, ℤ, pos, negsuc, ltb_ℤ, leb_ℤ, str_eq,
}
use crafty_server_watcher.Utf8.{encode, decode}
use crafty_server_watcher.Json.{Json, str, obj, arr, nil, end, field, int}
use crafty_server_watcher.JsonText.{dumps}
use crafty_server_watcher.McProtocol.{
  Fault, eof, bad_value, bad_text, Result, ok, err, Read, ◌>>=◌, return, fail, read_varint,
  write_varint, read_bytes, read_unsigned_short,
}

-- `stream.read(length)` with the check that follows it, and the decoding.
unfoldable pub read_exactly : ℤ → Read (List ℕ)
unfolding read_bytes
read_exactly n = do
  bytes ← read_bytes n
  if ltb_ℤ (pos (length bytes)) n then fail eof else return bytes

unfoldable pub as_text : Option String → Read String
as_text none = fail bad_text
as_text (some t) = return t

unfoldable pub read_utf : Read String
read_utf = do n ← read_varint; bytes ← read_exactly n; as_text (decode bytes)

unfoldable pub write_utf : String → List ℕ
write_utf value = let encoded = encode value in write_varint (pos (length encoded)) ++ encoded

-- The 2 MB of the sanity cap.
abbrev pub max_packet : ℕ
max_packet = 2 * 1024 * 1024

-- `await reader.readexactly(n)`
unfoldable pub receive : ℤ → Read (List ℕ)
receive (pos n) s = if ltb (length s) n then err eof else ok (take n s, drop n s)
receive (negsuc n) s = err bad_value

-- The identifier at the head of a packet's bytes, with what follows it.
unfoldable pub open_packet : List ℕ → Read (ℤ × List ℕ)
open_packet bytes s = elim (read_varint bytes) [
  | ok (id, payload) ↦ ok ((id, payload), s)
  | err e ↦ err e
]

-- What follows the length of a packet: the checks on it, and the packet's bytes.
unfoldable pub receive_packet : ℤ → Read (ℤ × List ℕ)
receive_packet n =
    if leb_ℤ n (pos 0)
    then fail eof
    else if ltb_ℤ (pos max_packet) n
    then fail bad_value
    else (receive n >>= open_packet)

-- `read_packet`: its reads from the socket raise IncompleteReadError, an EOFError, when it ends.
unfoldable pub read_packet : Read (ℤ × List ℕ)
read_packet = do n ← read_varint; receive_packet n

unfoldable pub build_packet : ℤ → List ℕ → List ℕ
build_packet packet_id payload =
    let inner = write_varint packet_id ++ payload in write_varint (pos (length inner)) ++ inner

pub record Handshake : Type 0 where
  pub protocol_version : ℤ
  pub server_address : String
  pub server_port : ℕ
  pub next_state : ℤ

unfoldable pub parse_handshake : Read Handshake
parse_handshake = do
  version ← read_varint
  address ← read_utf
  port ← read_unsigned_short
  next ← read_varint
  return (record {
    protocol_version = version;
    server_address = address;
    server_port = port;
    next_state = next;
  })

-- `LoginStart.parse`: its one field.
unfoldable pub parse_login_start : Read String
parse_login_start = read_utf

-- The `payload` of `build_status_response`.
unfoldable pub status_payload : String → String → ℤ → ℤ → ℤ → String → Json
status_payload motd version_name protocol max_players online_players favicon = obj (
    field "version" (obj (field "name" (str version_name) (field "protocol" (int protocol) end))) (
      field "players"
        (obj (
          field "max" (int max_players)
            (field "online" (int online_players) (field "sample" (arr nil) end))))
        (field "description" (obj (field "text" (str motd) end))
          (if str_eq favicon "" then end else field "favicon" (str favicon) end))))

unfoldable pub build_status_response : String → String → ℤ → ℤ → ℤ → String → List ℕ
build_status_response motd version_name protocol max_players online_players favicon =
    build_packet (pos 0) (
      write_utf
        (dumps (status_payload motd version_name protocol max_players online_players favicon)))

unfoldable pub build_pong : List ℕ → List ℕ
build_pong payload_long = build_packet (pos 1) payload_long

unfoldable pub build_disconnect : String → List ℕ
build_disconnect reason =
    build_packet (pos 0) (write_utf (dumps (obj (field "text" (str reason) end))))
