-- ===== src/Health/Http.antt =====
-- The HTTP side of health_server.py: a request's lines and body to a response. `int` of a text, the
-- token in a query by `parse_qs`, `str.lower`, and the decoding of bytes that replaces what is not
-- UTF-8 are parameters.
pub mod Access
use crafty_server_watcher.Common.{
  ℕ, suc, ◌*◌, String, Bool, true, false, not, ◌&&◌, ◌||◌, Option, none, some, List, [], ◌∷◌,
  if◌then◌else◌, ltb, length, take, ℤ, pos, negsuc, str_eq,
}
use crafty_server_watcher.Config.{CraftyEventsConfig}
use crafty_server_watcher.Text.{strip, split, before, behind, is_ascii}
use crafty_server_watcher.Json.{Json}
use crafty_server_watcher.CraftyEvents.{CraftyEvent, parse_event}
use crafty_server_watcher.Health.{Slots, Ids, Reply, process_crafty_event}

pub record Library : Type 0 where
  pub int_of : String → Option ℤ
  pub query_token : String → String
  pub lower : String → String
  pub decode_replace : List ℕ → String
  pub loads : String → Option Json

-- The lines as they are read, each with its end; "" stands for the end of the stream.
pub record Request : Type 0 where
  pub request_line : String
  pub header_lines : List String
  pub body : List ℕ

-- What is sent: nothing, when the connection ends before or an exception is logged; a status; the
-- reply to an event; the status of the servers; the metrics.
pub data Response : Type 0 where
  nothing : Response
  plain : ℕ → Response
  event_reply : Reply → Response
  server_status metrics : Response

abbrev pub is_blank : String → Bool
is_blank line = str_eq line "\r\n" || str_eq line "\n" || str_eq line ""

-- `headers.get(key, default)` of a dictionary in which a later line replaces an earlier one.
unfoldable pub header : String → String → List (String × String) → String
header key default [] = default
header key default ((k, v) ∷ rest) =
    let found = if str_eq k key then v else default in header key found rest

-- `_MAX_BODY_BYTES`
abbrev pub max_body : ℕ
max_body = 64 * 1024

-- `readexactly(length)` of what is there, after the bound; a body that is too short counts as none.
unfoldable pub body_bytes : ℤ → List ℕ → List ℕ
body_bytes (negsuc n) body = []
body_bytes (pos n) body =
    let bounded = if ltb max_body n then max_body else n in
    if ltb (length body) bounded then [] else take bounded body

module _ (lib : Library) where
  -- The loop over the header lines.
  unfoldable pub read_headers : List String → List (String × String)
  unfolding strip before behind
  read_headers [] = []
  read_headers (line ∷ rest) =
      let others = read_headers rest in
      if is_blank line
      then []
      else (lib.lower (strip (before 58 line)), strip (behind 58 line)) ∷ others

  unfoldable pub content_length : List (String × String) → ℤ
  content_length headers = elim (lib.int_of (header "content-length" "0" headers)) [
    | none ↦ pos 0
    | some n ↦ n
  ]

  -- `_read_body`: no bytes decode to "".
  unfoldable pub read_body : List (String × String) → List ℕ → String
  unfolding content_length body_bytes
  read_body headers body = elim (body_bytes (content_length headers) body) [
    | [] ↦ ""
    | b ∷ rest ↦ lib.decode_replace (b ∷ rest)
  ]

  -- `_token_matches`: `hmac.compare_digest` raises TypeError for texts that are not ASCII.
  unfoldable pub supplied : String → List (String × String) → String
  unfolding header
  supplied query headers =
      let t = lib.query_token query in
      if str_eq t "" then header "x-watcher-token" "" headers else t

  unfoldable pub token_matches : String → String → List (String × String) → Option Bool
  unfolding supplied
  token_matches expected query headers =
      let s = supplied query headers in
      if is_ascii s && is_ascii expected then some (str_eq s expected) else none

  module _ (webhook : Bool) (now : ℤ) (ids : Ids) (known : List String) where
    -- `_handle_post` once the token was checked, and before it.
    unfoldable pub accept : List (String × String) → List ℕ → Slots → Slots × Response
    unfolding read_body
    accept headers body slots =
        let (slots', reply) =
          process_crafty_event webhook now ids
            (parse_event lib.loads (read_body headers body) known) slots in
        (slots', event_reply reply)

    by_token : Option Bool → List (String × String) → List ℕ → Slots → Slots × Response
    by_token none headers body slots = (slots, nothing)
    by_token (some false) headers body slots = (slots, plain 403)
    by_token (some true) headers body slots = accept headers body slots

    unfoldable pub handle_post :
        Option CraftyEventsConfig
        → String
        → List (String × String)
        → List ℕ
        → Slots
        → Slots × Response
    unfolding by_token before behind
    handle_post none path headers body slots = (slots, plain 404)
    handle_post (some cfg) path headers body slots =
        if not cfg.enabled || not (str_eq (before 63 path) cfg.path)
        then (slots, plain 404)
        else if str_eq cfg.token ""
        then accept headers body slots
        else by_token (token_matches cfg.token (behind 63 path) headers) headers body slots

    unfoldable pub route :
        Option CraftyEventsConfig
        → String
        → String
        → List (String × String)
        → List ℕ
        → Slots
        → Slots × Response
    route cfg method path headers body slots =
        if str_eq method "POST"
        then handle_post cfg path headers body slots
        else if not (str_eq method "GET")
        then (slots, plain 405)
        else if str_eq path "/health"
        then (slots, plain 200)
        else if str_eq path "/status"
        then (slots, server_status)
        else if str_eq path "/metrics"
        then (slots, metrics)
        else (slots, plain 404)

    by_parts : Option CraftyEventsConfig → List String → Request → Slots → Slots × Response
    by_parts cfg (method ∷ path ∷ _) r slots =
        route cfg method path (read_headers r.header_lines) r.body slots
    by_parts cfg _ r slots = (slots, plain 400)

    -- `_handle_request`
    unfoldable pub handle_request : Option CraftyEventsConfig → Request → Slots → Slots × Response
    unfolding by_parts read_headers split strip
    handle_request cfg r slots =
        if str_eq r.request_line ""
        then (slots, nothing)
        else by_parts cfg (split (strip r.request_line)) r slots
