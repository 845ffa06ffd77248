-- ===== src/Client.antt =====
-- crafty_server_watcher/proxy_listener.py: what a connection to the port of a sleeping server does. `bytes` are
-- all that the client sends before it closes or a read times out.
pub mod Exchange
use crafty_server_watcher.Common.{
  ℕ, zero, suc, String, Bool, true, false, Option, none, some, List, [], ◌∷◌, ◌++◌, if◌then◌else◌,
  take, ℤ, pos, negsuc, eq_ℤ, not,
}
use crafty_server_watcher.ServerState.{ServerStateMachine}
use crafty_server_watcher.McProtocol.{Fault, eof, bad_value, bad_text, Result, ok, err}
use crafty_server_watcher.McProtocol.Packets.{
  Handshake, read_packet, parse_handshake, parse_login_start, build_status_response, build_pong,
}
use crafty_server_watcher.AccessControl.{File, AccessController, is_allowed}
use crafty_server_watcher.Proxy.{Slot, handle_login}

-- How the handling of a connection goes: it ends after these packets were sent, without a word or with
-- an exception logged, or the player of this name wants to log in.
pub data Session : Type 0 where
  ended failed : List (List ℕ) → Session
  login : String → Session

-- The `except` clauses of `_handle_client`: EOFError, TimeoutError and IncompleteReadError are silent.
unfoldable pub on_fault : List (List ℕ) → Fault → Session
on_fault sent eof = ended sent
on_fault sent bad_value = failed sent
on_fault sent bad_text = failed sent

-- The ping after the status, in a `try` of its own for the same exceptions.
answer_ping : List (List ℕ) → Result ((ℤ × List ℕ) × List ℕ) → Session
unfolding on_fault
answer_ping sent (err e) = on_fault sent e
answer_ping sent (ok ((id, payload), rest)) =
    if eq_ℤ id (pos 1) then ended (sent ++ build_pong (take 8 payload) ∷ []) else ended sent

unfoldable pub status_response : ServerStateMachine → List ℕ
status_response sm =
    build_status_response sm.cfg.motd_hibernating "Hibernating" (negsuc 0) sm.last_known_max (pos 0)
      ""

-- `_handle_status`
handle_status : ServerStateMachine → Result ((ℤ × List ℕ) × List ℕ) → Session
unfolding answer_ping
handle_status sm (err e) = on_fault [] e
handle_status sm (ok (request, rest)) = answer_ping (status_response sm ∷ []) (read_packet rest)

-- `_handle_login` up to the check of the player.
login_name : Result (String × List ℕ) → Session
unfolding on_fault
login_name (err e) = on_fault [] e
login_name (ok (name, rest)) = login name

read_login : Result ((ℤ × List ℕ) × List ℕ) → Session
unfolding login_name
read_login (err e) = on_fault [] e
read_login (ok ((id, payload), rest)) =
    if eq_ℤ id (pos 0) then login_name (parse_login_start payload) else ended []

dispatch : ServerStateMachine → List ℕ → Result (Handshake × List ℕ) → Session
unfolding handle_status read_login
dispatch sm rest (err e) = on_fault [] e
dispatch sm rest (ok (h, _)) =
    if eq_ℤ h.next_state (pos 1)
    then handle_status sm (read_packet rest)
    else if eq_ℤ h.next_state (pos 2)
    then read_login (read_packet rest)
    else ended []

first_packet : ServerStateMachine → Result ((ℤ × List ℕ) × List ℕ) → Session
unfolding dispatch
first_packet sm (err e) = on_fault [] e
first_packet sm (ok ((id, payload), rest)) =
    if eq_ℤ id (pos 0) then dispatch sm rest (parse_handshake payload) else ended []

-- `_handle_client` up to the check of the player.
unfoldable pub handle_client : ServerStateMachine → List ℕ → Session
unfolding first_packet
handle_client sm bytes = first_packet sm (read_packet bytes)

-- The check of the player, and what it leads to: an exception of the check ends the connection.
admit : Bool → String → String → String → Option Bool → Slot → Slot
admit webhook name player peer none p = p
admit webhook name player peer (some allowed) p = handle_login webhook name allowed player peer p

on_session :
    (String → String)
    → Bool
    → String
    → String
    → File
    → Session
    → AccessController
    → Slot
    → AccessController × Slot
unfolding admit
on_session casefold webhook name peer whitelist (login player) access p =
    let (access', allowed) = is_allowed casefold whitelist player access in
    (access', admit webhook name player peer allowed p)
on_session casefold webhook name peer whitelist _ access p = (access, p)

-- A connection, with the player's check and the first part of the login.
unfoldable pub connection :
    (String → String)
    → Bool
    → String
    → String
    → File
    → List ℕ
    → AccessController
    → Slot
    → AccessController × Slot
unfolding on_session
connection casefold webhook name peer whitelist bytes access p =
    on_session casefold webhook name peer whitelist (handle_client p.machine.sm bytes) access p
