-- ===== src/Client/Exchange.antt =====
-- What whole connections lead to.
use crafty_server_watcher.Common.{
  ℕ, ◌≤◌, ◌<◌, ◌^◌, ◌≡◌, ◌≢◌, refl, ap, ◌∙◌, sym, String, Bool, true, false, Option, none, some,
  List, [], ◌∷◌, ◌++◌, take, length, ℤ, pos, arith,
}
use mathlib.Core.List.{append-nil}
use crafty_server_watcher.ServerState.{ServerStateMachine}
use crafty_server_watcher.Utf8.{encode}
use crafty_server_watcher.Json.{obj, str, arr, nil, int, Fields, field, end, get}
use crafty_server_watcher.JsonText.{dumps}
use crafty_server_watcher.McProtocol.{ok, write_varint}
use crafty_server_watcher.McProtocol.VarInt.{IsInt32}
use crafty_server_watcher.McProtocol.Packets.{
  Handshake, parse_handshake, parse_login_start, build_packet, build_pong, build_status_response,
  status_payload, write_utf, max_packet,
}
use crafty_server_watcher.McProtocol.Packets.RoundTrip.{
  read-write_utf, read-build_packet, handshake_bytes, IsHandshake, parse-handshake_bytes,
}
use crafty_server_watcher.AccessControl.{File, AccessController, is_allowed}
use crafty_server_watcher.Proxy.{Slot, handle_login}
use crafty_server_watcher.Client.{
  Session, ended, failed, login, status_response, handle_client, connection, on_session, admit,
  dispatch, handle_status, read_login,
}

-- A packet that is within the cap of 2 MB.
abbrev pub Fits : ℤ → List ℕ → Type 0
Fits id payload = length (write_varint id ++ payload) ≤ max_packet

module _ (sm : ServerStateMachine) (h : Handshake) (v : IsHandshake h)
    (f : Fits (pos 0) (handshake_bytes h)) where
  after_handshake :
      (rest : List ℕ)
      → handle_client sm (build_packet (pos 0) (handshake_bytes h) ++ rest)
        ≡ dispatch sm rest (ok (h, []))
  unfolding handle_client
  after_handshake rest =
      let parsed : parse_handshake (handshake_bytes h) ≡ ok (h, []) =
        ap parse_handshake (sym (append-nil (handshake_bytes h))) ∙ parse-handshake_bytes h [] v in
      rw (read-build_packet (pos 0) (handshake_bytes h) rest (omega arith) f) (rw parsed refl)

  status_exchange-bytes :
      (id : ℤ) (request ping rest : List ℕ)
      → h.next_state ≡ pos 1
      → IsInt32 id
      → Fits id request
      → Fits (pos 1) ping
      → handle_client sm (
          build_packet (pos 0) (handshake_bytes h)
          ++ (build_packet id request ++ (build_packet (pos 1) ping ++ rest)))
        ≡ ended (status_response sm ∷ build_pong (take 8 ping) ∷ [])
  unfolding dispatch handle_status
  status_exchange-bytes id request ping rest n i q p =
      after_handshake _
      ∙ rw n (
          rw (read-build_packet id request (build_packet (pos 1) ping ++ rest) i q)
            (rw (read-build_packet (pos 1) ping rest (omega arith) p) refl))

  -- A client that sends a handshake for the status, any packet, and a ping, whose numbers and
  -- texts fit and which are within the cap of 2 MB each, gets two packets and nothing else. The first, of id 0, holds
  -- a JSON text whose description is the message for a hibernating server, and which says that nobody is online, of as
  -- many players as the server was last known to take; the second, of id 1, has the first eight bytes of the ping.
  pub status_exchange :
      (id : ℤ) (request ping rest : List ℕ)
      → h.next_state ≡ pos 1
      → IsInt32 id
      → Fits id request
      → Fits (pos 1) ping
      → (fields : Fields) × (handle_client sm (
            build_packet (pos 0) (handshake_bytes h)
            ++ (build_packet id request ++ (build_packet (pos 1) ping ++ rest)))
          ≡ ended (
              build_packet (pos 0) (write_utf (dumps (obj fields)))
              ∷ build_packet (pos 1) (take 8 ping)
              ∷ []))
        × (get fields "description" ≡ obj (field "text" (str sm.cfg.motd_hibernating) end))
        × (get fields "players"
            ≡ obj (
                field "max"
                  (int sm.last_known_max)
                  (field "online" (int (pos 0)) (field "sample" (arr nil) end))))
  unfolding status_response build_status_response status_payload build_pong get
  status_exchange id request ping rest n i q p =
      (_, status_exchange-bytes id request ping rest n i q p, refl, refl)

  -- A client that asks to log in is taken as the player whose name it sends, whatever follows the name.
  pub login_exchange :
      (name : String) (extra rest : List ℕ)
      → h.next_state ≡ pos 2
      → length (encode name) < 2 ^ 31
      → Fits (pos 0) (write_utf name ++ extra)
      → handle_client sm (
          build_packet (pos 0) (handshake_bytes h)
          ++ (build_packet (pos 0) (write_utf name ++ extra) ++ rest))
        ≡ login name
  unfolding dispatch read_login parse_login_start
  login_exchange name extra rest n l q =
      after_handshake _
      ∙ rw n (
          rw (read-build_packet (pos 0) (write_utf name ++ extra) rest (omega arith) q)
            (rw (read-write_utf name extra l) refl))

admitted :
    (webhook : Bool) (name player peer : String) (allowed : Option Bool) (p : Slot)
    → (admit webhook name player peer allowed p).closing ≢ p.closing
    → allowed ≡ some true
unfolding admit handle_login
admitted webhook name player peer none p changed = absurd (changed refl)
admitted webhook name player peer (some false) p changed = absurd (changed (ground arith))
admitted webhook name player peer (some true) p changed = refl

woken :
    (casefold : String → String) (webhook : Bool) (name peer : String) (whitelist : File)
    (access : AccessController) (p : Slot) (session : Session)
    → (on_session casefold webhook name peer whitelist session access p).1.closing ≢ p.closing
    → (player : String) × (session ≡ login player)
      × ((is_allowed casefold whitelist player access).1 ≡ some true)
unfolding on_session
woken casefold webhook name peer whitelist access p (ended sent) changed = absurd (changed refl)
woken casefold webhook name peer whitelist access p (failed sent) changed = absurd (changed refl)
woken casefold webhook name peer whitelist access p (login player) changed = (
  player,
  refl,
  admitted webhook name player peer (is_allowed casefold whitelist player access).1 p changed,
)

-- Whatever a client sends, if its connection begins a wake-up then it has asked to log in as a player
-- whom the check allows.
pub only_allowed_player_wakes :
    (casefold : String → String) (webhook : Bool) (name peer : String) (whitelist : File)
    (bytes : List ℕ) (access : AccessController) (p : Slot)
    → (connection casefold webhook name peer whitelist bytes access p).1.closing ≢ p.closing
    → (player : String) × (handle_client p.machine.sm bytes ≡ login player)
      × ((is_allowed casefold whitelist player access).1 ≡ some true)
unfolding connection
only_allowed_player_wakes casefold webhook name peer whitelist bytes access p changed =
    woken casefold webhook name peer whitelist access p (handle_client p.machine.sm bytes) changed

-- And the player whom the check allows does begin one.
pub allowed_player_wakes :
    (casefold : String → String) (webhook : Bool) (name peer player : String) (whitelist : File)
    (bytes : List ℕ) (access : AccessController) (p : Slot)
    → handle_client p.machine.sm bytes ≡ login player
    → (is_allowed casefold whitelist player access).1 ≡ some true
    → (connection casefold webhook name peer whitelist bytes access p).1
      ≡ handle_login webhook name true player peer p
unfolding connection on_session
allowed_player_wakes casefold webhook name peer player whitelist bytes access p asked allowed =
    rw (asked, allowed) refl
