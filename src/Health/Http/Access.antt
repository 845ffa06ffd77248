-- ===== src/Health/Http/Access.antt =====
-- Who may send events, and how much of a body is read.
use crafty_server_watcher.Common.{
  ℕ, ◌≤◌, ◌≡◌, ◌≢◌, ◌⊎◌, inl, inr, refl, String, Bool, true, false, ◌||◌, some, List, [], ◌∷◌,
  if◌then◌else◌, ltb, length, take, ℤ, pos, negsuc, str_eq, eq_iff, arith, Bool-cases, length-take,
}
use crafty_server_watcher.Config.{CraftyEventsConfig}
use crafty_server_watcher.Text.{strip, split, before, behind}
use crafty_server_watcher.Health.{Slots, Ids}
use crafty_server_watcher.Health.Http.{
  Library, Request, read_headers, max_body, body_bytes, supplied, token_matches, accept,
  handle_post, route, by_parts, by_token, handle_request,
}

-- At most 64 KB of a body are read, as many as the header says, and none of a body that is shorter.
pub body_bytes_bounds :
    (n : ℤ) (body : List ℕ)
    → (length (body_bytes n body) ≤ max_body)
      × ((body_bytes n body ≡ []) ⊎ (body_bytes n body ≡ take (length (body_bytes n body)) body))
unfolding body_bytes
body_bytes_bounds (negsuc n) body = (omega arith, inl refl)
body_bytes_bounds (pos n) body =
    let bounded = if ltb max_body n then max_body else n in
    elim (Bool-cases (ltb (length body) bounded)) [
      | inl short ↦ rw short (omega arith, inl refl)
      | inr full ↦
          let long : length (take bounded body) ≡ bounded =
            length-take bounded body (ground arith) in
          rw full (rw long (ground arith, inr refl))
    ]

module _ (lib : Library) (webhook : Bool) (now : ℤ) (ids : Ids) (known : List String) where
  handle_post-needs :
      (c : CraftyEventsConfig) (path : String) (headers : List (String × String)) (body : List ℕ)
      (slots : Slots)
      → (handle_post lib webhook now ids known (some c) path headers body slots).0 ≢ slots
      → (c.enabled ≡ true)
        × (str_eq (before 63 path) c.path ≡ true)
        × ((str_eq c.token "" || str_eq (supplied lib (behind 63 path) headers) c.token) ≡ true)
  unfolding handle_post token_matches
  handle_post-needs c path headers body slots changed = ground arith

  route-needs :
      (c : CraftyEventsConfig) (method path : String) (headers : List (String × String))
      (body : List ℕ) (slots : Slots)
      → (route lib webhook now ids known (some c) method path headers body slots).0 ≢ slots
      → (str_eq method "POST" ≡ true)
        × ((handle_post lib webhook now ids known (some c) path headers body slots).0 ≢ slots)
  unfolding route
  route-needs c method path headers body slots changed = ground arith

  -- What a request shows that may send events: a POST on the configured path, with the token in its
  -- query or its header if one is configured.
  pub record MaySend (c : CraftyEventsConfig) (r : Request) : Type 0 where
    pub path : String
    pub rest : List String
    pub words : split (strip r.request_line) ≡ "POST" ∷ path ∷ rest
    pub enabled : c.enabled ≡ true
    pub on_path : str_eq (before 63 path) c.path ≡ true
    pub token :
        (str_eq c.token ""
          || str_eq (supplied lib (behind 63 path) (read_headers lib r.header_lines)) c.token)
        ≡ true

  words_needed :
      (c : CraftyEventsConfig) (r : Request) (slots : Slots) (words : List String)
      → split (strip r.request_line) ≡ words
      → (by_parts lib webhook now ids known (some c) words r slots).0 ≢ slots
      → MaySend c r
  unfolding by_parts
  words_needed c r slots [] e changed = absurd (changed refl)
  words_needed c r slots (method ∷ []) e changed = absurd (changed refl)
  words_needed c r slots (method ∷ path ∷ rest) e changed =
      let headers = read_headers lib r.header_lines in
      let (post, by_post) = route-needs c method path headers r.body slots changed in
      let (on, there, token) = handle_post-needs c path headers r.body slots by_post in
      record {
        path = path;
        rest = rest;
        words = rw (← (eq_iff method "POST").0 post) e;
        enabled = on;
        on_path = there;
        token = token;
      }

  -- A request that changes who holds a port, or any machine, is a POST on the path of the events, these
  -- are enabled, and it carries the token if one is configured.
  pub change-MaySend :
      (c : CraftyEventsConfig) (r : Request) (slots : Slots)
      → (handle_request lib webhook now ids known (some c) r slots).0 ≢ slots
      → MaySend c r
  unfolding handle_request
  change-MaySend c r slots changed = elim (Bool-cases (str_eq r.request_line "")) [
    | inl e ↦ absurd (changed (rw e refl))
    | inr e ↦ words_needed c r slots (split (strip r.request_line)) refl (rw e at changed)
  ]

  -- And such a request is acted on.
  pub allowed_request_acts :
      (c : CraftyEventsConfig) (r : Request) (path : String) (rest : List String) (slots : Slots)
      → str_eq r.request_line "" ≡ false
      → split (strip r.request_line) ≡ "POST" ∷ path ∷ rest
      → c.enabled ≡ true
      → str_eq (before 63 path) c.path ≡ true
      → token_matches lib c.token (behind 63 path) (read_headers lib r.header_lines) ≡ some true
      → handle_request lib webhook now ids known (some c) r slots
        ≡ accept lib webhook now ids known (read_headers lib r.header_lines) r.body slots
  unfolding handle_request by_parts route handle_post by_token
  allowed_request_acts c r path rest slots line words on there token =
      rw (line, words, on, there, token) (ground arith)
