-- ===== src/CraftyApi.antt =====
-- crafty_server_watcher/crafty_api.py: requests to the Crafty API, and how their ends are told apart.
use Prim.Native.String.{◌++◌}
use crafty_server_watcher.Common.{
  ℕ, String, Bool, false, Option, none, some, List, [], ◌∷◌, if◌then◌else◌, ◌==◌, leb, str_eq,
}
use crafty_server_watcher.Json.{Json, str, arr, obj, nil, Fields, end, field}
use crafty_server_watcher.Values.{look_up}

pub record CraftyApiClient : Type 0 where
  pub scheme : String
  pub host : String
  pub port : ℕ
  pub token : String
  pub checks_certificate : Bool

-- `parsed.port or …`
port_of : String → Option ℕ → ℕ
port_of scheme port = elim port [
  | none ↦ if str_eq scheme "https" then 443 else 80
  | some n ↦ if n == 0 then (if str_eq scheme "https" then 443 else 80) else n
]

-- `parsed.hostname or "localhost"`
host_of : Option String → String
host_of none = "localhost"
host_of (some name) = if str_eq name "" then "localhost" else name

-- The constructor, from what `urlparse` finds in the base address.
unfoldable pub new_client : String → Option String → Option ℕ → String → Bool → CraftyApiClient
unfolding host_of port_of
new_client scheme hostname port token verify_tls = record {
  scheme = scheme;
  host = host_of hostname;
  port = port_of scheme port;
  token = token;
  checks_certificate = verify_tls;
}

pub record HttpRequest : Type 0 where
  pub method : String
  pub path : String
  pub body : Option String
  pub headers : List (String × String)

-- How an exchange ends: an OSError or an HTTPException, or a status and the decoded text.
pub data Exchange : Type 0 where
  broken : Exchange
  answered : ℕ → String → Exchange

-- Sending by `http.client`, with a timeout of 15 seconds, and `json.loads`, where `none` is a
-- JSONDecodeError.
pub record Library : Type 0 where
  pub send : CraftyApiClient → HttpRequest → Exchange
  pub loads : String → Option Json
  pub dumps : Json → String

-- How a method ends; `raised` is an exception that is neither a ConnectionError nor a CraftyApiError.
pub data Called {ℓ} (A : Type ℓ) : Type ℓ where
  returned : A → Called A
  connection_error raised : Called A
  api_error : ℕ → String → String → Called A

infixl 5 ◌>>=◌
abbrev pub ◌>>=◌ {ℓ κ} : {A : Type ℓ} {B : Type κ} → Called A → (A → Called B) → Called B
returned a >>= f = f a
connection_error >>= f = connection_error
raised >>= f = raised
api_error status body path >>= f = api_error status body path

-- `data.get(key)`, which is an AttributeError unless `data` is a mapping.
unfoldable pub get_key : String → Json → Called (Option Json)
get_key key (obj reply) = returned (look_up reply key)
get_key key _ = raised

is_ok : Option Json → Bool
is_ok (some (str s)) = str_eq s "ok"
is_ok _ = false

-- `data.get("status") == "ok"`
unfoldable pub status_ok : Json → Called Bool
unfolding is_ok
status_ok reply = do status ← get_key "status" reply; returned (is_ok status)

get_or : Json → Option Json → Json
get_or default none = default
get_or default (some v) = v

-- The data of a reply: a text that is no JSON is kept as it is.
unfoldable pub data_of : Library → String → Json
data_of lib raw =
    if str_eq raw ""
    then obj end
    else elim (lib.loads raw) [ none ↦ obj (field "raw" (str raw) end) | some v ↦ v ]

module _ (lib : Library) (client : CraftyApiClient) where
  content_headers : Option String → String → List (String × String)
  content_headers none content_type = []
  content_headers (some body) content_type = ("Content-Type", content_type) ∷ []

  -- What `_request` and `send_stdin` make of an exchange.
  unfoldable pub checked : String → Exchange → Called Json
  unfolding data_of
  checked path broken = connection_error
  checked path (answered status raw) =
      if leb 400 status
      then api_error status (lib.dumps (data_of lib raw)) path
      else returned (data_of lib raw)

  -- `_request_sync`, and the errors of its callers.
  unfoldable pub request_sync : String → String → Option String → String → Called Json
  unfolding content_headers checked
  request_sync method path body content_type = checked path (
      lib.send client (record {
        method = method;
        path = path;
        body = body;
        headers =
            ("Authorization", "Bearer " ++ client.token)
            ∷ ("Accept", "application/json")
            ∷ content_headers body content_type;
      }))

  -- `json.dumps(body) if body else None`
  body_text : Option Fields → Option String
  body_text none = none
  body_text (some end) = none
  body_text (some (field k v rest)) = some (lib.dumps (obj (field k v rest)))

  -- `_request`
  unfoldable pub request : String → String → Option Fields → Called Json
  unfolding body_text
  request method path body = request_sync method path (body_text body) "application/json"

  -- `except (ConnectionError, CraftyApiError): return False`
  or_false : Called Bool → Called Bool
  or_false connection_error = returned false
  or_false (api_error _ _ _) = returned false
  or_false c = c

  unfoldable pub check_health : Called Bool
  unfolding or_false
  check_health = or_false (request "GET" "/api/v2/crafty/check" none >>= status_ok)

  unfoldable pub list_servers : Called Json
  unfolding get_or
  list_servers = do
    reply ← request "GET" "/api/v2/servers" none
    servers ← get_key "data" reply
    returned (get_or (arr nil) servers)

  unfoldable pub get_server_stats : String → Called Json
  unfolding get_or
  get_server_stats id = do
    reply ← request "GET" ("/api/v2/servers/" ++ id ++ "/stats") none
    stats ← get_key "data" reply
    returned (get_or reply stats)

  unfoldable pub start_server : String → Called Bool
  start_server id =
      request "POST" ("/api/v2/servers/" ++ id ++ "/action/start_server") none >>= status_ok

  unfoldable pub stop_server : String → Called Bool
  stop_server id =
      request "POST" ("/api/v2/servers/" ++ id ++ "/action/stop_server") none >>= status_ok

  unfoldable pub send_stdin : String → String → Called Bool
  send_stdin id command =
      request_sync "POST" ("/api/v2/servers/" ++ id ++ "/stdin") (some command) "text/plain"
      >>= status_ok
