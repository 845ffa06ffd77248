-- ===== src/ConfigLoader.antt =====
-- crafty_server_watcher/config.py: `load_config` over the value that `yaml.safe_load` returns, as a JSON value
-- with texts for keys. What Python's `str` and `int` make of values, and `str.lower`, is a parameter.
pub mod Ports
pub mod Valid
pub mod Names
pub mod Failures
use Prim.Native.Char.{char, code}
use crafty_server_watcher.Common.{
  String, Bool, true, false, not, ◌&&◌, ◌||◌, Option, none, some, List, [], ◌∷◌, ◌++◌,
  if◌then◌else◌, ◌==◌, ℤ, pos, negsuc, eq_ℤ, str_eq,
}
use crafty_server_watcher.Config.{
  AccessConfig, ServerConfig, PollingConfig, CooldownConfig, CraftyConfig, WebhookConfig,
  LoggingConfig, HealthConfig, CraftyEventsConfig, AppConfig, default_access, default_polling,
  default_cooldowns,
}
use crafty_server_watcher.Values.{Python, look_up, str_value, int_value}
use crafty_server_watcher.Loading.{
  Loading, loaded, config_error, raised, ◌>>=◌, ◌>>◌, check, section, load_section, get_str,
  get_int, get_bool,
}
use crafty_server_watcher.Sections.{
  load_crafty, load_polling, load_cooldowns, load_logging, load_webhook, load_state, load_health,
  load_crafty_events,
}
use crafty_server_watcher.Json.{
  Json, null, bool, num, str, arr, obj, Items, nil, cons, Fields, end, field, get, is_true, whole,
}

abbrev pub is_empty : List String → Bool
is_empty [] = true
is_empty (_ ∷ _) = false

abbrev pub uses_port : ℤ → List (String × ServerConfig) → Bool
uses_port port [] = false
uses_port port ((name, srv) ∷ rest) =
    if eq_ℤ srv.listen_port port then true else uses_port port rest

-- The configuration file: not there, no YAML, or with this value.
pub data ConfigFile : Type 0 where
  missing unreadable malformed : ConfigFile
  parsed : Json → ConfigFile

module _ (py : Python) where
  str_items : Items → List String
  unfolding str_value
  str_items nil = []
  str_items (cons v rest) = str_value py v ∷ str_items rest

  -- `raw.get("allowed_players") or []`
  allowed_players : Json → Loading (List String)
  unfolding str_items
  allowed_players (arr items) = loaded (str_items items)
  allowed_players v = if is_true v then config_error else loaded []

  unfoldable pub load_access : Fields → Loading AccessConfig
  unfolding allowed_players default_access
  load_access raw = do
    let mode = py.lower (get_str py raw "mode" default_access.mode)
    check (str_eq mode "off" || str_eq mode "whitelist")
    players ← allowed_players (get raw "allowed_players")
    let whitelist_file = get_str py raw "whitelist_file" default_access.whitelist_file
    check (not (str_eq mode "whitelist" && str_eq whitelist_file "" && is_empty players))
    loaded (record {
      mode = mode;
      whitelist_file = whitelist_file;
      allowed_players = players;
      deny_message = get_str py raw "deny_message" default_access.deny_message;
    })

  -- `_load_access` of `raw.get("access") or {}`
  unfoldable pub access_of : Json → Loading AccessConfig
  access_of (obj fields) = load_access fields
  access_of v = if is_true v then raised else load_access end

  -- `int(port)` of the port, whose exceptions nothing turns into a ConfigError.
  port_value : Json → Loading ℤ
  unfolding int_value
  port_value null = config_error
  port_value v = elim (int_value py v) [ none ↦ raised | some n ↦ loaded n ]

  present : Json → Bool
  present null = false
  present _ = true

  unfoldable pub load_server : String → Fields → Loading ServerConfig
  unfolding port_value present str_value
  load_server name raw = do
    check (is_true (get raw "crafty_server_id"))
    check (present (get raw "listen_port"))
    let edition = py.lower (get_str py raw "edition" "java")
    check (str_eq edition "java" || str_eq edition "bedrock")
    port ← port_value (get raw "listen_port")
    idle_timeout ← get_int py raw "idle_timeout_minutes" (pos 10)
    start_timeout ← get_int py raw "start_timeout_seconds" (pos 180)
    access ← access_of (get raw "access")
    loaded (record {
      name = name;
      crafty_server_id = str_value py (get raw "crafty_server_id");
      listen_port = port;
      listen_host = get_str py raw "listen_host" "0.0.0.0";
      edition = edition;
      idle_timeout_minutes = idle_timeout;
      start_timeout_seconds = start_timeout;
      motd_hibernating =
          get_str py raw "motd_hibernating" "§7⏳ Server is hibernating. Connect to wake it up!";
      kick_message =
          get_str py raw "kick_message"
            "§eServer is starting up!\n§7Please reconnect in about 60 seconds.";
      access = access;
    })

  -- The loop over the servers, with the ones loaded so far: `seen_ports` has their ports.
  unfoldable pub load_servers :
      List (String × ServerConfig) → Fields → Loading (List (String × ServerConfig))
  load_servers seen end = loaded seen
  load_servers seen (field name (obj raw) rest) = do
    srv ← load_server name raw
    check (not (uses_port srv.listen_port seen))
    load_servers (seen ++ (name, srv) ∷ []) rest
  load_servers seen (field name _ rest) = config_error

  -- `raw.get("servers", {})`, its emptiness, and `.items()`.
  unfoldable pub load_server_table : Json → Loading (List (String × ServerConfig))
  unfolding load_servers
  load_server_table (obj servers) = do check (is_true (obj servers)); load_servers [] servers
  load_server_table v = if is_true v then raised else config_error

  -- `resolve_token`, with the variable's value, "" where it is not set.
  unfoldable pub resolve_token : (String → String) → CraftyConfig → Loading CraftyConfig
  resolve_token environment crafty = do
    let token = environment crafty.api_token_env
    check (not (str_eq token ""))
    loaded (record crafty { api_token = token })

  -- What follows the parsing of the file; `environment` gives a variable's value, "" where it is not set.
  unfoldable pub load_root : (String → String) → Fields → Loading AppConfig
  unfolding resolve_token
  load_root environment raw = do
    crafty ← load_section (λ raw. loaded (load_crafty py raw)) raw "crafty"
    servers ← load_server_table (get raw "servers")
    polling ← load_section (load_polling py) raw "polling"
    cooldowns ← load_section (load_cooldowns py) raw "cooldowns"
    logging ← load_section (load_logging py) raw "logging"
    webhook ← load_section (load_webhook py) raw "webhook"
    health ← load_section (load_health py) raw "health"
    events ← load_section (λ raw. loaded (load_crafty_events py raw)) raw "crafty_events"
    state ← load_section (λ raw. loaded (load_state py raw)) raw "state"
    resolved ← resolve_token environment crafty
    loaded (record {
      crafty = resolved;
      servers = servers;
      polling = polling;
      cooldowns = cooldowns;
      logging = logging;
      webhook = webhook;
      health = health;
      crafty_events = events;
      state_file = state;
    })

  -- `load_config`
  unfoldable pub load_config : (String → String) → ConfigFile → Loading AppConfig
  load_config environment missing = config_error
  load_config environment unreadable = raised
  load_config environment malformed = config_error
  load_config environment (parsed (obj raw)) = load_root environment raw
  load_config environment (parsed v) = if is_true v then config_error else load_root environment end
