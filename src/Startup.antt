-- ===== src/Startup.antt =====
-- crafty_server_watcher/__main__.py: what `_run` builds before it runs the tasks.
pub mod Ready
use crafty_server_watcher.Common.{
  String, Bool, true, false, not, Option, none, some, List, [], ◌∷◌, ◌++◌, map, if◌then◌else◌,
  str_eq,
}
use crafty_server_watcher.Config.{
  CraftyConfig, ServerConfig, CooldownConfig, HealthConfig, CraftyEventsConfig, WebhookConfig,
  PollingConfig, AppConfig,
}
use crafty_server_watcher.Json.{
  Json, null, bool, num, str, arr, obj, Items, nil, cons, Fields, end, field,
}
use crafty_server_watcher.Values.{Python, look_up}
use crafty_server_watcher.Loading.{Loading, loaded, config_error, raised}
use crafty_server_watcher.ConfigLoader.{ConfigFile, load_config}
use crafty_server_watcher.ServerState.{ServerStateMachine, Machines, new}
use crafty_server_watcher.CraftyApi.{
  CraftyApiClient, Library, Called, returned, connection_error, api_error, check_health,
  list_servers,
}

-- The components: the machines, those of the two proxies, the ids that Crafty does not know, and what is
-- optional.
pub record Components : Type 0 where
  pub machines : Machines
  pub java : Machines
  pub bedrock : Machines
  pub unknown_ids : List String
  pub webhook : Option WebhookConfig
  pub state_file : Option String
  pub health : Option HealthConfig
  pub events : CraftyEventsConfig
  pub polling : PollingConfig

-- How the start ends: `sys.exit(1)`, another exception, or with the components.
pub data Started : Type 0 where
  exited crashed : Started
  running : Components → Started

-- `ServerStateMachine(cfg=srv_cfg, cooldowns=cfg.cooldowns)`, whose `on_change` is set when state is kept.
unfoldable pub machine_of : Bool → CooldownConfig → ServerConfig → ServerStateMachine
machine_of kept cooldowns srv = record (new srv cooldowns) { on_change = kept }

unfoldable pub machines_of : Bool → CooldownConfig → List (String × ServerConfig) → Machines
machines_of kept cooldowns [] = []
machines_of kept cooldowns ((name, srv) ∷ rest) =
    (name, machine_of kept cooldowns srv) ∷ machines_of kept cooldowns rest

-- The machines whose server is of the Bedrock edition, and the others.
unfoldable pub of_edition : Bool → Machines → Machines
of_edition bedrock [] = []
of_edition bedrock ((name, sm) ∷ rest) =
    let others = of_edition bedrock rest in
    let is_bedrock = str_eq sm.cfg.edition "bedrock" in
    if (if bedrock then is_bedrock else not is_bedrock) then (name, sm) ∷ others else others

-- `s["server_id"]` for a set: what is no mapping, has no such key, or cannot be hashed, raises. Only texts
-- can be the id of a server.
server_id_of : Option Json → Option (List String)
server_id_of none = none
server_id_of (some (str s)) = some (s ∷ [])
server_id_of (some (arr _)) = none
server_id_of (some (obj _)) = none
server_id_of (some _) = some []

id_of : Json → Option (List String)
unfolding server_id_of
id_of (obj fields) = server_id_of (look_up fields "server_id")
id_of _ = none

joined : Option (List String) → Option (List String) → Option (List String)
joined (some xs) (some ys) = some (xs ++ ys)
joined _ _ = none

ids_of_items : Items → Option (List String)
unfolding id_of joined
ids_of_items nil = some []
ids_of_items (cons v rest) = joined (id_of v) (ids_of_items rest)

-- `{s["server_id"] for s in known_servers}`
unfoldable pub known_ids : Json → Option (List String)
unfolding ids_of_items
known_ids (arr items) = ids_of_items items
known_ids (obj end) = some []
known_ids (str s) = if str_eq s "" then some [] else none
known_ids _ = none

abbrev is_known : String → List String → Bool
is_known id [] = false
is_known id (x ∷ rest) = if str_eq x id then true else is_known id rest

-- The ids that are logged as not found; their servers are kept all the same.
unfoldable pub unknown_of : List String → Machines → List String
unknown_of known [] = []
unknown_of known ((name, sm) ∷ rest) =
    let others = unknown_of known rest in
    if is_known sm.cfg.crafty_server_id known then others else sm.cfg.crafty_server_id ∷ others

unfoldable pub build : AppConfig → List String → Components
build cfg known =
    let kept = not (str_eq cfg.state_file "") in
    let machines = machines_of kept cfg.cooldowns cfg.servers in
    record {
      machines = machines;
      java = of_edition false machines;
      bedrock = of_edition true machines;
      unknown_ids = unknown_of known machines;
      webhook = if cfg.webhook.enabled then some cfg.webhook else none;
      state_file = if kept then some cfg.state_file else none;
      health = if cfg.health.enabled then some cfg.health else none;
      events = cfg.crafty_events;
      polling = cfg.polling;
    }

with_ids : AppConfig → Option (List String) → Started
with_ids cfg none = crashed
with_ids cfg (some known) = running (build cfg known)

with_servers : AppConfig → Called Json → Started
unfolding with_ids
with_servers cfg (returned servers) = with_ids cfg (known_ids servers)
with_servers cfg _ = crashed

when_healthy : AppConfig → Called Bool → Called Json → Started
unfolding with_servers
when_healthy cfg (returned true) servers = with_servers cfg servers
when_healthy cfg (returned false) servers = exited
when_healthy cfg _ servers = crashed

-- `connect` stands for the client's constructor, with `urlparse` in it.
when_loaded : Library → (CraftyConfig → CraftyApiClient) → Loading AppConfig → Started
unfolding when_healthy
when_loaded lib connect (loaded cfg) =
    let client = connect cfg.crafty in
    when_healthy cfg (check_health lib client) (list_servers lib client)
when_loaded lib connect config_error = exited
when_loaded lib connect raised = crashed

-- `_run` up to its tasks.
unfoldable pub start_up :
    Python → (String → String) → Library → (CraftyConfig → CraftyApiClient) → ConfigFile → Started
unfolding when_loaded
start_up py environment lib connect file = when_loaded lib connect (load_config py environment file)
