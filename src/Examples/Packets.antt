-- ===== src/Examples/Packets.antt =====
-- The theorems on packets and connections at concrete clients.
use crafty_server_watcher.Common.{
  take, ◌≡◌, ◌≢◌, refl, String, true, some, List, [], ◌∷◌, ◌++◌, ℕ, ◌<◌, ◌^◌, length, pos, ◌+ℤ◌,
  arith,
}
use crafty_server_watcher.Json.{obj, str, arr, nil, int, Fields, field, end, get}
use crafty_server_watcher.JsonText.{dumps}
use crafty_server_watcher.McProtocol.{ok, write_varint, write_varint_loop}
use crafty_server_watcher.Utf8.{encode}
use crafty_server_watcher.McProtocol.Packets.{Handshake, read_packet, build_packet, write_utf}
use crafty_server_watcher.McProtocol.Packets.RoundTrip.{
  read-build_packet, handshake_bytes, IsHandshake,
}
use crafty_server_watcher.AccessControl.{is_allowed}
use crafty_server_watcher.Proxy.{handle_login}
use crafty_server_watcher.Client.{ended, login, handle_client, connection}
use crafty_server_watcher.Client.Exchange.{
  status_exchange, login_exchange, Fits, only_allowed_player_wakes, allowed_player_wakes,
}
use crafty_server_watcher.Examples.Listener.{asleep}
use crafty_server_watcher.Examples.Requests.{whitelisting, list_file, plain, alex_allowed}

abbrev ping : List ℕ
ping = 1 ∷ 2 ∷ 3 ∷ 4 ∷ 5 ∷ 6 ∷ 7 ∷ 8 ∷ []

ping-Fits : Fits (pos 1) ping
unfolding write_varint write_varint_loop ◌+ℤ◌
ping-Fits = omega arith

read-build_packet_example :
    read_packet (build_packet (pos 1) ping ++ 99 ∷ []) ≡ ok ((pos 1, ping), 99 ∷ [])
read-build_packet_example = read-build_packet (pos 1) ping (99 ∷ []) (omega arith) ping-Fits

abbrev hello : Handshake
hello = record {
  protocol_version = pos 767;
  server_address = "mc";
  server_port = 25565;
  next_state = pos 1;
}

abbrev joining : Handshake
joining = record hello { next_state = pos 2 }

name_fits : (length (encode "mc") < 2 ^ 31) × (length (encode "alex") < 2 ^ 31)
unfolding encode
name_fits = (omega arith, omega arith)

hello-IsHandshake : IsHandshake hello
hello-IsHandshake = record {
  version_fits = omega arith;
  address_fits = name_fits.0;
  port_fits = omega arith;
  next_fits = omega arith;
}

joining-IsHandshake : IsHandshake joining
joining-IsHandshake = record {
  version_fits = omega arith;
  address_fits = name_fits.0;
  port_fits = omega arith;
  next_fits = omega arith;
}

hello-Fits :
    Fits (pos 0) (handshake_bytes hello) × Fits (pos 0) (handshake_bytes joining) × Fits (pos 0) []
unfolding write_varint write_varint_loop ◌+ℤ◌ write_utf encode
hello-Fits = (omega arith, omega arith, omega arith)

name_packet-Fits : Fits (pos 0) (write_utf "alex" ++ [])
unfolding write_varint write_varint_loop ◌+ℤ◌ write_utf encode
name_packet-Fits = omega arith

status_exchange_example :
    (fields : Fields) × (handle_client asleep.machine.sm (
        build_packet (pos 0) (handshake_bytes hello)
        ++ (build_packet (pos 0) [] ++ (build_packet (pos 1) ping ++ [])))
      ≡ ended (
          build_packet (pos 0) (write_utf (dumps (obj fields)))
          ∷ build_packet (pos 1) (take 8 ping)
          ∷ []))
    × (get fields "description"
        ≡ obj (field "text" (str asleep.machine.sm.cfg.motd_hibernating) end))
    × (get fields "players"
        ≡ obj (
            field "max"
              (int asleep.machine.sm.last_known_max)
              (field "online" (int (pos 0)) (field "sample" (arr nil) end))))
status_exchange_example =
    status_exchange asleep.machine.sm hello hello-IsHandshake hello-Fits.0 (pos 0) [] ping [] refl
      (omega arith) hello-Fits.2 ping-Fits

abbrev alex_joins : List ℕ
alex_joins =
    build_packet (pos 0) (handshake_bytes joining)
    ++ (build_packet (pos 0) (write_utf "alex" ++ []) ++ [])

alex_asks : handle_client asleep.machine.sm alex_joins ≡ login "alex"
alex_asks =
    login_exchange asleep.machine.sm joining joining-IsHandshake hello-Fits.1 "alex" [] [] refl
      name_fits.1 name_packet-Fits

alex_wakes :
    (connection plain true "survival" "10.0.0.1" list_file alex_joins whitelisting asleep).1.closing
    ≢ 0
unfolding handle_login
alex_wakes =
    rw
      (allowed_player_wakes plain true "survival" "10.0.0.1" "alex" list_file alex_joins
        whitelisting asleep alex_asks alex_allowed)
      (λ h. omega arith)

only_allowed_player_wakes_example :
    (player : String) × (handle_client asleep.machine.sm alex_joins ≡ login player)
    × ((is_allowed plain list_file player whitelisting).1 ≡ some true)
only_allowed_player_wakes_example =
    only_allowed_player_wakes plain true "survival" "10.0.0.1" list_file alex_joins whitelisting
      asleep alex_wakes
