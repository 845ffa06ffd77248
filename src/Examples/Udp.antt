-- ===== src/Examples/Udp.antt =====
-- The theorems on bedrock_proxy.py at a sleeping server.
use crafty_server_watcher.Common.{
  ◌≡◌, ◌<◌, refl, ℕ, true, false, some, List, [], ◌∷◌, ◌++◌, length, pos, arith,
}
use crafty_server_watcher.Utf8.{encode}
use crafty_server_watcher.JsonText.{str_of_int}
use crafty_server_watcher.RakNet.{
  raknet_magic, slice, first_is, parse_unconnected_ping, unpack_64, unpack_signed, server_name,
}
use crafty_server_watcher.RakNet.Echo.{AreBytes}
use crafty_server_watcher.Bedrock.Datagram.{packet, clean_motd, datagram_received}
use crafty_server_watcher.Bedrock.Datagram.Ping.{name_bytes, ping_is_answered}
use crafty_server_watcher.State.{starting}
use crafty_server_watcher.Bedrock.{
  Berth, ensure_listener, bind_answered, connection_requested, trigger_start, call_start,
  start_answered,
}
use crafty_server_watcher.Bedrock.Start.{pause_loses_port}
use crafty_server_watcher.Examples.Fixture.{at}
use crafty_server_watcher.Examples.Listener.{asleep}

abbrev moored : Berth
moored = record {
  machine = asleep.machine;
  listening = true;
  lockout = false;
  binding = 0;
  spawned = 0;
  pausing = 0;
  calling = 0;
}

pause_loses_port_example :
    let q = bind_answered true (ensure_listener (trigger_start (connection_requested moored))) in
    let r = start_answered (at 106) true (call_start q) in
    (q.lockout ≡ false) × (r.machine.state ≡ starting) × (r.listening ≡ true)
pause_loses_port_example = pause_loses_port (at 106) moored refl refl

-- A ping of time 1 from client 2.
abbrev ping : List ℕ
ping = 1 ∷ 0 ∷ 0 ∷ 0 ∷ 0 ∷ 0 ∷ 0 ∷ 0 ∷ 1 ∷ raknet_magic ++ 0 ∷ 0 ∷ 0 ∷ 0 ∷ 0 ∷ 0 ∷ 0 ∷ 2 ∷ []

ping_parses : parse_unconnected_ping ping ≡ some (1, pos 2)
unfolding parse_unconnected_ping unpack_64 unpack_signed
ping_parses = refl

ping_bytes : AreBytes ping
ping_bytes = ground arith

name_is_short : length (name_bytes (pos 5) moored) < 65536
unfolding server_name clean_motd encode str_of_int
name_is_short = omega arith

ping_is_answered_example :
    (reply : List ℕ) × (datagram_received (pos 5) moored ping ≡ (packet reply, moored))
    × (first_is 0x1c reply ≡ true)
    × (slice 1 9 reply ≡ slice 1 9 ping)
    × (slice 17 33 reply ≡ raknet_magic)
ping_is_answered_example =
    ping_is_answered (pos 5) moored ping 1 (pos 2) ping_bytes ping_parses name_is_short
