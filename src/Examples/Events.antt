-- ===== src/Examples/Events.antt =====
-- The theorems on crafty_events.py and on the requests of health_server.py.
use crafty_server_watcher.Common.{
  ◌≡◌, ◌≢◌, refl, ◌↔◌, ◌≤◌, inl, inr, ℕ, String, true, Option, none, some, [], ◌∷◌, if◌then◌else◌,
  str_eq, pos, ap, sym, ◌∙◌, arith,
}
use mathlib.Core.Option.{some_inj}
use crafty_server_watcher.Config.{CraftyEventsConfig}
use crafty_server_watcher.Text.{strip, split, before, behind}
use crafty_server_watcher.Json.{
  Json, str, arr, obj, nil, cons, Fields, end, field, get, text, is_true,
}
use crafty_server_watcher.CraftyEvents.{levels, iter_strings, parse_event, payload_of, as_object}
use crafty_server_watcher.CraftyEvents.Search.{
  At, here, in_arr, in_obj, first, value, In, Agrees, iter_strings_iff, template_is_found,
}
use crafty_server_watcher.Health.{
  Slots, name_of, port_event, start, move_port, process_crafty_event,
}
use crafty_server_watcher.Health.Events.{slot_of, port_event_moves_one}
use crafty_server_watcher.Proxy.{Slot, release_for_start, release_port_for_start}
use crafty_server_watcher.ServerState.{transition}
use crafty_server_watcher.Examples.Listener.{asleep}
use crafty_server_watcher.Health.Replies.{Printing, response_bytes}
use crafty_server_watcher.Health.Replies.Framing.{IsFramed, response-IsFramed}
use crafty_server_watcher.Health.Http.{
  server_status, Library, Request, Response, handle_request, read_headers, read_body,
  content_length, body_bytes, token_matches, supplied, accept,
}
use crafty_server_watcher.Health.Http.Access.{MaySend, change-MaySend, allowed_request_acts}
use crafty_server_watcher.Examples.Fixture.{at, idle_machine}
use crafty_server_watcher.Examples.Requests.{managed, all_ids, started}

-- The rendered template, in the envelope of a Discord message.
abbrev rendered : String
rendered = "{server_id: 11-22, event: start_server}"

abbrev told : Fields
told = field "server_id" (str "11-22") (field "event" (str "start_server") end)

abbrev envelope : Json
envelope = obj (field "embeds" (arr (cons (obj (field "description" (str rendered) end)) nil)) end)

abbrev message : String
message = "{embeds: ...}"

abbrev loads : String → Option Json
loads s =
    if str_eq s rendered then some (obj told) else if str_eq s message then some envelope else none

iter_strings_iff_example :
    In rendered (iter_strings levels envelope) ↔ ((d : ℕ) × (d ≤ 6) × At d envelope rendered)
iter_strings_iff_example = iter_strings_iff envelope rendered

in_envelope : At 3 envelope rendered
in_envelope = in_obj (value (in_arr (first (in_obj (value here)))))

read_told : (as_object loads rendered ≡ some told) × (payload_of loads message ≡ some envelope)
unfolding as_object payload_of strip
read_told = (refl, refl)

only_rendered : (e : ℕ) (s : String) → e ≤ 6 → At e envelope s → s ≡ rendered
unfolding iter_strings
only_rendered e s l at = elim ((iter_strings_iff envelope s).1 (e, l, at)) [
  | inl same ↦ same
  | inr h ↦ absurd h
]

agreeing : (e : ℕ) (s : String) → e ≤ 6 → At e envelope s → Agrees loads "11-22" "start_server" s
unfolding get text is_true
agreeing e s l at object read =
    let same : told ≡ object =
      some_inj.0 (sym read_told.0 ∙ ap (as_object loads) (sym (only_rendered e s l at)) ∙ read) in
    rw (← same) (refl, refl)

template_is_found_example :
    parse_event loads message [] ≡ some (record { server_id = "11-22"; event = "start_server" })
template_is_found_example =
    template_is_found loads "11-22" "start_server" message [] envelope 3 rendered told read_told.1
      (omega arith) in_envelope read_told.0 agreeing

abbrev library : Library
library = record {
  int_of = λ s. some (pos 3);
  query_token = λ query. "hunter2";
  lower = λ s. s;
  decode_replace = λ bytes. message;
  loads = loads;
}

abbrev receiver : CraftyEventsConfig
receiver = record { enabled = true; path = "/events/crafty"; token = "hunter2" }

abbrev event_request : Request
event_request = record {
  request_line = "POST /events/crafty?token=hunter2 HTTP/1.1\r\n";
  header_lines = "Content-Length: 3\r\n" ∷ "\r\n" ∷ [];
  body = 1 ∷ 2 ∷ 3 ∷ [];
}

parsed_request :
    (split (strip event_request.request_line)
      ≡ "POST" ∷ "/events/crafty?token=hunter2" ∷ "HTTP/1.1" ∷ [])
    × (str_eq (before 63 "/events/crafty?token=hunter2") receiver.path ≡ true)
    × (token_matches library "hunter2"
          (behind 63 "/events/crafty?token=hunter2")
          (read_headers library event_request.header_lines)
        ≡ some true)
    × (read_body library (read_headers library event_request.header_lines) event_request.body
        ≡ message)
unfolding split strip before behind token_matches supplied read_body content_length body_bytes
parsed_request = (refl, refl, refl, refl)

abbrev handled : Slots
handled = (handle_request library true (at 100) all_ids [] (some receiver) event_request managed).0

accepted_event :
    (accept library true
      (at 100)
      all_ids
      []
      (read_headers library event_request.header_lines)
      event_request.body
      managed).0
    ≡ (process_crafty_event true (at 100) all_ids (some (started "11-22")) managed).0
unfolding accept
accepted_event =
    let found : parse_event loads message [] ≡ some (started "11-22") =
      template_is_found loads "11-22" "start_server" message [] envelope 3 rendered told read_told.1
        (omega arith) in_envelope read_told.0 agreeing in
    rw parsed_request.3 (rw found refl)

event_acted :
    handled ≡ (process_crafty_event true (at 100) all_ids (some (started "11-22")) managed).0
event_acted =
    let (words, there, token, body) = parsed_request in
    ap (λ (x : Slots × Response). x.0)
      (allowed_request_acts library true (at 100) all_ids [] receiver event_request
        "/events/crafty?token=hunter2" ("HTTP/1.1" ∷ []) managed refl words refl there token)
    ∙ accepted_event

released : (move_port true (at 100) "survival" start asleep).0.lockout ≡ true
unfolding move_port release_for_start release_port_for_start transition
released = ground arith

port_released : handled ≢ managed
unfolding name_of port_event slot_of
port_released same =
    let moved : some (move_port true (at 100) "survival" start asleep).0 ≡ some asleep =
      sym
        (port_event_moves_one true (at 100) all_ids (started "11-22") start "survival" "creative"
          asleep managed refl refl refl refl).1
      ∙ ap (slot_of "survival") (sym event_acted ∙ same) in
    let kept : asleep.lockout ≡ true =
      ap (λ (p : Slot). p.lockout) (sym (some_inj.0 moved)) ∙ released in
    ground arith

change-MaySend_example : MaySend library true (at 100) all_ids [] receiver event_request
change-MaySend_example =
    change-MaySend library true (at 100) all_ids [] receiver event_request managed port_released

abbrev printing : Printing
printing = record {
  round_1 = λ t. t;
  one_decimal = λ t. "1.0";
  rounded = λ t. "1.0";
  dumps = λ v. "{}";
}

response-IsFramed_example : IsFramed (
    response_bytes printing
      (at 0)
      (at 701)
      (("survival", idle_machine) ∷ [])
      all_ids
      none
      server_status)
response-IsFramed_example =
    response-IsFramed printing (at 0) (at 701) (("survival", idle_machine) ∷ []) all_ids none
      server_status (λ v. refl) (λ e. cc)
