-- ===== src/Bedrock/Datagram.antt =====
-- crafty_server_watcher/bedrock_proxy.py: `BedrockProxyProtocol`, which gets the datagrams of one server's port.
pub mod Ping
use Prim.Native.Char.{code}
use crafty_server_watcher.Common.{
  ℕ, String, Bool, true, false, Option, none, some, List, [], ◌∷◌, if◌then◌else◌, ◌==◌, ℤ, pos,
  str_eq,
}
use crafty_server_watcher.Bedrock.{Berth, connection_requested}
use crafty_server_watcher.RakNet.{
  parse_unconnected_ping, build_unconnected_pong, is_open_connection_request_1,
  build_incompatible_protocol,
}

-- The loop that takes formatting codes off, with its `skip_next`.
clean_on : Bool → String → String
clean_on skip String.[] = String.[]
clean_on skip (String.◌∷◌ c s) =
    let skipping = clean_on true s in
    let rest = clean_on false s in
    if code c == 0xa7 then skipping else if skip then rest else String.◌∷◌ c rest

unfoldable pub clean_motd : String → String
unfolding clean_on
clean_motd motd =
    let clean = clean_on false motd in if str_eq clean "" then "Server hibernating" else clean

-- What is sent to the client; `failed` is an exception.
pub data Sent : Type 0 where
  nothing failed : Sent
  packet : List ℕ → Sent

abbrev sent : Option (List ℕ) → Sent
sent none = failed
sent (some bytes) = packet bytes

-- The pong for a server, given the time that the ping has.
unfoldable pub pong : ℤ → Berth → ℕ → Option (List ℕ)
pong guid b client_time =
    let sm = b.machine in
    build_unconnected_pong client_time guid (clean_motd sm.cfg.motd_hibernating) (pos 0)
      sm.last_known_max sm.cfg.listen_port

on_packet : ℤ → Berth → List ℕ → Option (ℕ × ℤ) → Sent × Berth
on_packet guid b bytes (some (client_time, _)) = (sent (pong guid b client_time), b)
on_packet guid b bytes none =
    if is_open_connection_request_1 bytes
    then (packet (build_incompatible_protocol guid), connection_requested b)
    else (nothing, b)

unfoldable pub datagram_received : ℤ → Berth → List ℕ → Sent × Berth
unfolding on_packet
datagram_received guid b [] = (nothing, b)
datagram_received guid b (byte ∷ bytes) =
    on_packet guid b (byte ∷ bytes) (parse_unconnected_ping (byte ∷ bytes))
