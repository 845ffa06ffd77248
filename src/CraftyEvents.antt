-- ===== src/CraftyEvents.antt =====
-- crafty_server_watcher/crafty_events.py: the event in the body of one of Crafty's webhooks. `loads` is
-- `json.loads`, with `none` for its ValueError.
pub mod Search
use crafty_server_watcher.Common.{
  ℕ, zero, suc, String, Bool, true, false, not, ◌&&◌, Option, none, some, List, [], ◌∷◌, ◌++◌,
  if◌then◌else◌, str_eq,
}
use crafty_server_watcher.Json.{
  Json, null, bool, num, str, arr, obj, Items, nil, cons, Fields, end, field, get, is_true, text,
}
use crafty_server_watcher.Text.{strip, begins, contains}

abbrev pub known_events : List String
known_events =
    "start_server" ∷ "stop_server" ∷ "crash_detected" ∷ "backup_server" ∷ "jar_update"
    ∷ "send_command" ∷ "kill" ∷ []

pub record CraftyEvent : Type 0 where
  pub server_id : String
  pub event : String

-- `_iter_strings` with the levels that are left, of the `_MAX_DEPTH + 1` there are.
abbrev pub levels : ℕ
levels = 7

unfoldable mutual
  pub iter_strings : ℕ → Json → List String
  iter_strings zero node = []
  iter_strings (suc k) (str s) = s ∷ []
  iter_strings (suc k) (arr items) = iter_items k items
  iter_strings (suc k) (obj fields) = iter_values k fields
  iter_strings (suc k) _ = []

  pub iter_items : ℕ → Items → List String
  iter_items k nil = []
  iter_items k (cons v rest) = iter_strings k v ++ iter_items k rest

  pub iter_values : ℕ → Fields → List String
  iter_values k end = []
  iter_values k (field key v rest) = iter_strings k v ++ iter_values k rest

-- The server's id and the event's name, as far as they are found.
abbrev pub Found : Type 0
Found = Option String × Option String

-- `if isinstance(…, str) and … is None`
abbrev pub keep_first : Option String → Option String → Option String
keep_first (some s) _ = some s
keep_first none found = found

-- `data.get("event") or data.get("event_type")`
abbrev pub event_of : Fields → Json
event_of object = let v = get object "event" in if is_true v then v else get object "event_type"

unfoldable pub note : Fields → Found → Found
unfolding get text is_true
note object (id, event) =
    (keep_first id (text (get object "server_id")), keep_first event (text (event_of object)))

abbrev pub object_of : Option Json → Option Fields
object_of (some (obj fields)) = some fields
object_of _ = none

-- `next((x for x in … if x in raw_body), None)`
unfoldable pub first_in : String → List String → Option String
first_in body [] = none
first_in body (x ∷ rest) = if contains x body then some x else first_in body rest

-- The ids that are not empty: `if sid and sid in raw_body`.
unfoldable pub first_id_in : String → List String → Option String
first_id_in body [] = none
first_id_in body (x ∷ rest) =
    if not (str_eq x "") && contains x body then some x else first_id_in body rest

both_found : Found → Option CraftyEvent
both_found (some id, some event) = some (record { server_id = id; event = event })
both_found _ = none

module _ (loads : String → Option Json) where
  -- `_as_object`
  unfoldable pub as_object : String → Option Fields
  unfolding strip
  as_object s = let t = strip s in if begins 123 t then object_of (loads t) else none

  note_chunk : Option Fields → Found → Found
  note_chunk none found = found
  note_chunk (some object) found = note object found

  -- The loop over the texts in the payload.
  unfoldable pub search : List String → Found → Found
  unfolding note_chunk
  search [] found = found
  search (chunk ∷ rest) found = search rest (note_chunk (as_object chunk) found)

  note_payload : Option Json → Found
  unfolding note_chunk
  note_payload none = (none, none)
  note_payload (some payload) =
      note_chunk (object_of (some payload)) (search (iter_strings levels payload) (none, none))

  -- The payload: `json.loads` may give `None` for the text `null`, as if there were none.
  some_value : Option Json → Option Json
  some_value (some null) = none
  some_value v = v

  unfoldable pub payload_of : String → Option Json
  unfolding some_value
  payload_of body = elim (as_object body) [
    | some fields ↦ some (obj fields)
    | none ↦ some_value (loads body)
  ]

  -- The ids are those of the set `known`, in the order in which it is iterated.
  unfoldable pub parse_event : String → List String → Option CraftyEvent
  unfolding note_payload both_found
  parse_event body known =
      let (id, event) = note_payload (payload_of body) in
      both_found
        (keep_first id (first_id_in body known), keep_first event (first_in body known_events))
