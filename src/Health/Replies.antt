-- ===== src/Health/Replies.antt =====
-- The texts and bytes that health_server.py sends. `json.dumps` and the printing and rounding of seconds
-- are parameters.
pub mod Framing
use Prim.Native.String.{◌++◌ as ◌+++◌}
use crafty_server_watcher.Common.{
  ℕ, ◌==◌, String, Option, none, some, List, [], ◌∷◌, ◌++◌, if◌then◌else◌, length, ℤ, pos, ◌-ℤ◌,
  eq_ℤ,
}
use crafty_server_watcher.State.{value}
use crafty_server_watcher.Utf8.{codes, encode}
use crafty_server_watcher.Json.{Json, null, num, str, obj, Fields, end, field, int}
use crafty_server_watcher.JsonText.{str_of_int}
use crafty_server_watcher.ServerState.{ServerStateMachine, Machines}
use crafty_server_watcher.ServerState.Timing.{idle_elapsed}
use crafty_server_watcher.CraftyEvents.{CraftyEvent}
use crafty_server_watcher.Metrics.{generate_metrics}
use crafty_server_watcher.Health.{Ids, name_of, Reply, unknown_server, ignored, status}
use crafty_server_watcher.Health.Http.{
  Response, nothing, plain, event_reply, server_status, metrics,
}

-- Seconds rounded to a decimal, their two ways to print, and `json.dumps(data, indent=2)`, whose texts
-- have no character beyond ASCII.
pub record Printing : Type 0 where
  pub round_1 : ℤ → ℤ
  pub one_decimal : ℤ → String
  pub rounded : ℤ → String
  pub dumps : Json → String

unfoldable pub idle_seconds : (ℤ → ℤ) → ℤ → ServerStateMachine → Json
idle_seconds round_1 now sm = elim sm.idle_since [
  | none ↦ null
  | some t ↦ if eq_ℤ t (pos 0) then null else num (round_1 (idle_elapsed now sm))
]

unfoldable pub server_fields : (ℤ → ℤ) → ℤ → ServerStateMachine → Json
unfolding idle_seconds
server_fields round_1 now sm = obj (
    field "state" (str (value sm.state)) (
      field "port" (int sm.cfg.listen_port) (
        field "players_online" (int sm.last_known_online) (
          field "players_max" (int sm.last_known_max) (
            field "idle_seconds" (idle_seconds round_1 now sm)
              (field "crafty_server_id" (str sm.cfg.crafty_server_id) end))))))

unfoldable pub all_servers : (ℤ → ℤ) → ℤ → Machines → Fields
unfolding server_fields
all_servers round_1 now [] = end
all_servers round_1 now ((name, sm) ∷ rest) =
    field name (server_fields round_1 now sm) (all_servers round_1 now rest)

-- `_build_status_json`
unfoldable pub build_status_json : (ℤ → ℤ) → ℤ → ℤ → Machines → Json
unfolding all_servers
build_status_json round_1 start_time now machines = obj (
    field "status" (str "ok") (
      field "uptime_seconds" (num (round_1 (now -ℤ start_time)))
        (field "servers" (obj (all_servers round_1 now machines)) end)))

counts : (ServerStateMachine → ℤ) → Machines → List (String × ℤ)
counts count [] = []
counts count ((name, sm) ∷ rest) = (name, count sm) ∷ counts count rest

-- `_build_metrics`
unfoldable pub build_metrics : Printing → ℤ → ℤ → Machines → String
unfolding counts
build_metrics p start_time now machines =
    generate_metrics p.one_decimal p.rounded now machines (now -ℤ start_time)
      (counts (λ sm. sm.start_count) machines) (counts (λ sm. sm.stop_count) machines)

-- The dictionary that `_process_crafty_event` returns.
name_or_empty : Option String → String
name_or_empty none = ""
name_or_empty (some name) = name

unfoldable pub about : Ids → CraftyEvent → String → Json
unfolding name_or_empty
about ids e result = obj (
    field "result" (str result) (
      field "server" (str (name_or_empty (name_of e.server_id ids)))
        (field "event" (str e.event) end)))

unfoldable pub reply_json : Ids → Option CraftyEvent → Reply → Json
unfolding about
reply_json ids (some e) unknown_server =
    obj (field "result" (str "unknown_server") (field "server_id" (str e.server_id) end))
reply_json ids (some e) ignored = about ids e "ignored"
reply_json ids (some e) (status result) = about ids e result
reply_json ids _ _ = obj (field "result" (str "unparsed") end)

-- `HTTPStatus.phrase`, of the statuses that are sent.
abbrev pub phrase : ℕ → String
phrase n =
    if n == 200
    then "OK"
    else if n == 400
    then "Bad Request"
    else if n == 403
    then "Forbidden"
    else if n == 404
    then "Not Found"
    else if n == 405
    then "Method Not Allowed"
    else ""

unfoldable pub head : ℕ → String → ℕ → String
head n content_type size =
    "HTTP/1.1 "
    +++ str_of_int (pos n)
    +++ " "
    +++ phrase n
    +++ "\r\nContent-Type: "
    +++ content_type
    +++ "\r\nContent-Length: "
    +++ str_of_int (pos size)
    +++ "\r\nConnection: close\r\n\r\n"

-- `_send_response` and `_send_json` announce the characters of the body, `_send_plain` its bytes.
unfoldable pub send_response : ℕ → String → List ℕ
send_response n body = encode (head n "text/plain" (length (codes body)) +++ body)

unfoldable pub send_json : (Json → String) → ℕ → Json → List ℕ
send_json dumps n reply =
    let body = dumps reply in encode (head n "application/json" (length (codes body)) +++ body)

unfoldable pub send_plain : ℕ → String → List ℕ
send_plain n body =
    let encoded = encode body in
    encode (head n "text/plain; version=0.0.4; charset=utf-8" (length encoded)) ++ encoded

-- What the client receives for a response: the body of an error is the phrase of its status.
unfoldable pub response_bytes :
    Printing → ℤ → ℤ → Machines → Ids → Option CraftyEvent → Response → List ℕ
response_bytes p start_time now machines ids event nothing = []
response_bytes p start_time now machines ids event (plain n) = send_response n (phrase n)
response_bytes p start_time now machines ids event (event_reply reply) =
    send_json p.dumps 200 (reply_json ids event reply)
response_bytes p start_time now machines ids event server_status =
    send_json p.dumps 200 (build_status_json p.round_1 start_time now machines)
response_bytes p start_time now machines ids event metrics =
    send_plain 200 (build_metrics p start_time now machines)
