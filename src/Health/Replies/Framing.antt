-- ===== src/Health/Replies/Framing.antt =====
-- The length that a response announces.
use Prim.Native.Char.{code}
use Prim.Native.String.{◌++◌ as ◌+++◌}
use text.Mathlib.TextLemmas.{nil-append, cons-append}
use mathlib.Core.List.{append_assoc}
use crafty_server_watcher.Common.{
  ℕ, ◌≡◌, ◌≢◌, refl, ap, ◌∙◌, sym, String, true, Option, List, ◌++◌, length, ◌==◌, if_rule, ℤ, pos,
  arith,
}
use crafty_server_watcher.Text.{is_ascii}
use crafty_server_watcher.Utf8.{codes, encode, encode_code}
use crafty_server_watcher.Json.{Json}
use crafty_server_watcher.JsonText.{str_of_int}
use crafty_server_watcher.ServerState.{Machines}
use crafty_server_watcher.CraftyEvents.{CraftyEvent}
use crafty_server_watcher.Health.{Ids}
use crafty_server_watcher.Health.Http.{
  Response, nothing, plain, event_reply, server_status, metrics,
}
use crafty_server_watcher.Health.Replies.{
  Printing, phrase, head, reply_json, build_status_json, build_metrics, send_response, send_json,
  send_plain, response_bytes,
}

encode-append : (s t : String) → encode (s +++ t) ≡ encode s ++ encode t
unfolding encode
encode-append String.[] t = rw (nil-append t) refl
encode-append (String.◌∷◌ c s) t =
    ap encode (cons-append c s t)
    ∙ ap (λ rest. encode_code (code c) ++ rest) (encode-append s t)
    ∙ sym (append_assoc (encode_code (code c)) (encode s) (encode t))

-- A text that is ASCII has as many bytes as characters.
length-encode_ascii : (s : String) → is_ascii s ≡ true → length (encode s) ≡ length (codes s)
unfolding encode
length-encode_ascii String.[] h = refl
length-encode_ascii (String.◌∷◌ c s) h = ground (arith, length-encode_ascii s)

-- The bytes of a response: a status line, three header lines, of which the second has the length of the body in
-- decimal digits, an empty line, and the body.
pub record IsFramed (bytes : List ℕ) : Type 0 where
  pub status : ℕ
  pub reason : String
  pub content_type : String
  pub body : List ℕ
  pub framed :
      bytes
      ≡ encode (
          "HTTP/1.1 "
          +++ str_of_int (pos status)
          +++ " "
          +++ reason
          +++ "\r\nContent-Type: "
          +++ content_type
          +++ "\r\nContent-Length: "
          +++ str_of_int (pos (length body))
          +++ "\r\nConnection: close\r\n\r\n")
        ++ body

text-IsFramed :
    (n : ℕ) (content_type body : String)
    → is_ascii body ≡ true
    → IsFramed (encode (head n content_type (length (codes body)) +++ body))
unfolding head
text-IsFramed n content_type body h = record {
  status = n;
  reason = phrase n;
  content_type = content_type;
  body = encode body;
  framed =
      rw (length-encode_ascii body h)
        (encode-append (head n content_type (length (codes body))) body);
}

phrase-is_ascii : (n : ℕ) → is_ascii (phrase n) ≡ true
phrase-is_ascii n =
    let P : String → Type 0 = λ s. is_ascii s ≡ true in
    if_rule P (n == 200) "OK" _ refl (
      if_rule P (n == 400) "Bad Request" _ refl (
        if_rule P (n == 403) "Forbidden" _ refl (
          if_rule P (n == 404) "Not Found" _ refl
            (if_rule P (n == 405) "Method Not Allowed" "" refl refl))))

-- Every response that is sent is a status line, the three header lines, an empty line and a body of as many bytes
-- as `Content-Length` says, where `json.dumps` prints ASCII only, as it does unless it is told otherwise.
pub response-IsFramed :
    (p : Printing) (start_time now : ℤ) (machines : Machines) (ids : Ids)
    (event : Option CraftyEvent) (r : Response)
    → ((v : Json) → is_ascii (p.dumps v) ≡ true)
    → r ≢ nothing
    → IsFramed (response_bytes p start_time now machines ids event r)
unfolding response_bytes send_response send_json send_plain head
response-IsFramed p start_time now machines ids event nothing ascii h = absurd (h refl)
response-IsFramed p start_time now machines ids event (plain n) ascii h =
    text-IsFramed n "text/plain" (phrase n) (phrase-is_ascii n)
response-IsFramed p start_time now machines ids event (event_reply reply) ascii h =
    text-IsFramed 200 "application/json" (p.dumps (reply_json ids event reply))
      (ascii (reply_json ids event reply))
response-IsFramed p start_time now machines ids event server_status ascii h =
    let value = build_status_json p.round_1 start_time now machines in
    text-IsFramed 200 "application/json" (p.dumps value) (ascii value)
response-IsFramed p start_time now machines ids event metrics ascii h = record {
  status = 200;
  reason = "OK";
  content_type = "text/plain; version=0.0.4; charset=utf-8";
  body = encode (build_metrics p start_time now machines);
  framed = refl;
}
