-- ===== src/Bedrock/Datagram/Ping.antt =====
-- How a ping is answered.
use crafty_server_watcher.Common.{
  ℕ, ◌<◌, ◌≡◌, ◌≢◌, refl, true, some, List, [], ◌∷◌, ℤ, pos, length, arith,
}
use crafty_server_watcher.Utf8.{encode}
use crafty_server_watcher.Bedrock.{Berth, is_asleep, connection_requested}
use crafty_server_watcher.RakNet.{
  raknet_magic, slice, first_is, parse_unconnected_ping, is_open_connection_request_1, server_name,
}
use crafty_server_watcher.RakNet.Echo.{AreBytes, time_back, built_pong}
use crafty_server_watcher.Bedrock.Datagram.{packet, pong, clean_motd, datagram_received}

-- The name that a pong carries.
abbrev pub name_bytes : ℤ → Berth → List ℕ
name_bytes guid b =
    let sm = b.machine in
    encode (
      server_name guid (clean_motd sm.cfg.motd_hibernating) (pos 0) sm.last_known_max
        sm.cfg.listen_port)

received_ping :
    (guid : ℤ) (b : Berth) (bytes reply : List ℕ) (time : ℕ) (client : ℤ)
    → parse_unconnected_ping bytes ≡ some (time, client)
    → pong guid b time ≡ some reply
    → datagram_received guid b bytes ≡ (packet reply, b)
unfolding datagram_received parse_unconnected_ping
received_ping guid b [] reply time client e p = ground arith
received_ping guid b (byte ∷ bytes) reply time client e p = rw (e, p) refl

-- A ping whose bytes are right is answered, whatever the state of the server, with a pong that has the
-- eight bytes of the ping's time and RakNet's magic in their places, when the name of the server fits
-- in a packet. A ping starts no server: the berth is left as it was.
pub ping_is_answered :
    (guid : ℤ) (b : Berth) (bytes : List ℕ) (time : ℕ) (client : ℤ)
    → AreBytes bytes
    → parse_unconnected_ping bytes ≡ some (time, client)
    → length (name_bytes guid b) < 65536
    → (reply : List ℕ) × (datagram_received guid b bytes ≡ (packet reply, b))
      × (first_is 0x1c reply ≡ true)
      × (slice 1 9 reply ≡ slice 1 9 bytes)
      × (slice 17 33 reply ≡ raknet_magic)
unfolding pong
ping_is_answered guid b bytes time client p e short =
    let sm = b.machine in
    let (reply, built, id, at_time, at_magic) =
      built_pong time guid (clean_motd sm.cfg.motd_hibernating) (pos 0) sm.last_known_max
        sm.cfg.listen_port short in
    (
      reply,
      received_ping guid b bytes reply time client e built,
      id,
      rw at_time (time_back bytes time client p e),
      at_magic,
    )

-- A datagram changes what the watcher holds only when it is an Open Connection Request 1 to a server
-- that is stopped or crashed.
pub only_request_wakes :
    (guid : ℤ) (b : Berth) (bytes : List ℕ)
    → (datagram_received guid b bytes).1 ≢ b
    → (is_open_connection_request_1 bytes ≡ true) × (is_asleep b ≡ true)
unfolding datagram_received connection_requested
only_request_wakes guid b [] moved = absurd (moved refl)
only_request_wakes guid b (byte ∷ bytes) moved = ground arith
