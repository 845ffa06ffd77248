-- ===== src/McProtocol/Packets/RoundTrip.antt =====
-- Texts and packets are read as they were written.
use crafty_server_watcher.Common.{
  ℕ, ◌+◌, ◌*◌, ◌/◌, ◌%◌, ◌^◌, ◌<◌, ◌≤◌, ◌≡◌, refl, String, false, List, ◌∷◌, ◌++◌, length,
  length-append, take_append, drop_append, ltb, ℤ, pos, arith,
}
use mathlib.Core.List.{append_assoc}
use crafty_server_watcher.Utf8.{encode}
use crafty_server_watcher.Utf8.RoundTrip.{decode-encode}
use crafty_server_watcher.McProtocol.{ok, write_varint, write_varint_loop, read_unsigned_short}
use crafty_server_watcher.McProtocol.VarInt.{IsInt32, read-write_varint}
use crafty_server_watcher.McProtocol.Packets.{
  read_exactly, as_text, read_utf, write_utf, max_packet, receive, open_packet, receive_packet,
  read_packet, build_packet, Handshake, parse_handshake,
}

read_exactly-append :
    (bytes rest : List ℕ) → read_exactly (pos (length bytes)) (bytes ++ rest) ≡ ok (bytes, rest)
unfolding read_exactly
read_exactly-append bytes rest = rw (take_append bytes rest, drop_append bytes rest) (ground arith)

receive-append :
    (bytes rest : List ℕ) → receive (pos (length bytes)) (bytes ++ rest) ≡ ok (bytes, rest)
unfolding receive
receive-append bytes rest =
    let long : ltb (length (bytes ++ rest)) (length bytes) ≡ false =
      ground (arith, length-append bytes rest) in
    rw (long, take_append bytes rest, drop_append bytes rest) refl

-- A text is read back from what was written for it, and reading stops just behind it.
pub read-write_utf :
    (t : String) (rest : List ℕ)
    → length (encode t) < 2 ^ 31
    → read_utf (write_utf t ++ rest) ≡ ok (t, rest)
unfolding read_utf write_utf as_text
read-write_utf t rest h =
    rw (append_assoc (write_varint (pos (length (encode t)))) (encode t) rest) (
      rw (read-write_varint (pos (length (encode t))) (encode t ++ rest) (omega arith))
        (rw (read_exactly-append (encode t) rest) (rw (decode-encode t) refl)))

write_varint-filled : (v : ℤ) → 0 < length (write_varint v)
unfolding write_varint write_varint_loop
write_varint-filled v = ground arith

receive_packet-append :
    (id : ℤ) (payload rest : List ℕ)
    → IsInt32 id
    → length (write_varint id ++ payload) ≤ max_packet
    → receive_packet
        (pos (length (write_varint id ++ payload)))
        ((write_varint id ++ payload) ++ rest)
      ≡ ok ((id, payload), rest)
unfolding receive_packet open_packet
receive_packet-append id payload rest i h = ground (
  arith,
  write_varint-filled id,
  length-append (write_varint id) payload,
  receive-append (write_varint id ++ payload) rest,
  read-write_varint id payload i,
)

-- A packet is read back from what was built for it: its identifier and its payload, up to the cap of
-- 2 MB on the two together.
pub read-build_packet :
    (id : ℤ) (payload rest : List ℕ)
    → IsInt32 id
    → length (write_varint id ++ payload) ≤ max_packet
    → read_packet (build_packet id payload ++ rest) ≡ ok ((id, payload), rest)
unfolding read_packet build_packet
read-build_packet id payload rest i h =
    let inner = write_varint id ++ payload in
    rw (append_assoc (write_varint (pos (length inner))) inner rest) (
      rw (read-write_varint (pos (length inner)) (inner ++ rest) (omega arith))
        (receive_packet-append id payload rest i h))

-- What a client writes as its handshake.
abbrev pub handshake_bytes : Handshake → List ℕ
handshake_bytes h =
    write_varint h.protocol_version
    ++ (write_utf h.server_address
        ++ (h.server_port / 256) ∷ (h.server_port % 256) ∷ write_varint h.next_state)

pub record IsHandshake (h : Handshake) : Type 0 where
  pub version_fits : IsInt32 h.protocol_version
  pub address_fits : length (encode h.server_address) < 2 ^ 31
  pub port_fits : h.server_port < 65536
  pub next_fits : IsInt32 h.next_state

port_back : (p : ℕ) → p / 256 * 256 + p % 256 ≡ p
port_back p = omega arith

-- A handshake that a client wrote is parsed as it was, with what follows it left.
pub parse-handshake_bytes :
    (h : Handshake) (rest : List ℕ)
    → IsHandshake h
    → parse_handshake (handshake_bytes h ++ rest) ≡ ok (h, rest)
unfolding parse_handshake read_unsigned_short
parse-handshake_bytes h rest v =
    let port = (h.server_port / 256) ∷ (h.server_port % 256) ∷ write_varint h.next_state in
    rw
      (
        append_assoc (write_varint h.protocol_version) (write_utf h.server_address ++ port) rest,
        append_assoc (write_utf h.server_address) port rest,
      )
      (rw
        (read-write_varint h.protocol_version (write_utf h.server_address ++ (port ++ rest))
          v.version_fits)
        (rw (read-write_utf h.server_address (port ++ rest) v.address_fits) (
          rw (port_back h.server_port)
            (rw (read-write_varint h.next_state rest v.next_fits) refl))))
