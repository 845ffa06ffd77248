-- ===== src/Examples/Loading.antt =====
-- The theorems on config.py and on the reload of __main__.py at a small file.
use crafty_server_watcher.Common.{◌≡◌, refl, String, true, false, none, some, [], ◌∷◌, pos, times}
use crafty_server_watcher.Config.{
  AppConfig, CraftyConfig, ServerConfig, default_access, default_polling, default_cooldowns,
}
use crafty_server_watcher.Json.{null, str, obj, Fields, end, field, int, get, is_true, whole}
use crafty_server_watcher.Values.{Python, look_up, str_value, int_value}
use crafty_server_watcher.Loading.{loaded, section, load_section, get_str, get_int, get_bool}
use crafty_server_watcher.Sections.{
  load_crafty, load_polling, load_cooldowns, load_logging, load_webhook, load_state, load_health,
  load_crafty_events, rooted,
}
use crafty_server_watcher.ConfigLoader.{
  parsed, load_access, access_of, load_server, load_servers, load_server_table, load_root,
  load_config,
}
use crafty_server_watcher.ConfigLoader.Valid.{IsValid, load_config-IsValid}
use crafty_server_watcher.AccessControl.{configured}
use crafty_server_watcher.Reload.{Watcher, find, apply, on_reload}
use crafty_server_watcher.Reload.Effect.{reload_applies, empty_section_ends_watcher}
use crafty_server_watcher.Examples.Fixture.{idle_machine}
use crafty_server_watcher.Examples.Requests.{whitelisting, plain}

abbrev pub python : Python
python = record { str_of = λ v. "?"; int_of = λ s. none; lower = λ s. s }

abbrev pub environment : String → String
environment name = "secret"

abbrev pub one_server : Fields
one_server =
    field "survival"
      (obj (field "crafty_server_id" (str "11-22") (field "listen_port" (int (pos 25565)) end))) end

abbrev pub small_file : Fields
small_file = field "servers" (obj one_server) end

unfoldable pub server : ServerConfig
unfolding default_access
server = record {
  name = "survival";
  crafty_server_id = "11-22";
  listen_port = pos 25565;
  listen_host = "0.0.0.0";
  edition = "java";
  idle_timeout_minutes = pos 10;
  start_timeout_seconds = pos 180;
  motd_hibernating = "§7⏳ Server is hibernating. Connect to wake it up!";
  kick_message = "§eServer is starting up!\n§7Please reconnect in about 60 seconds.";
  access = default_access;
}

abbrev pub defaults : CraftyConfig
defaults = record {
  base_url = "https://localhost:8443";
  api_token_env = "CRAFTY_API_TOKEN";
  verify_tls = true;
  api_token = "";
}

unfoldable pub configuration : AppConfig
unfolding default_polling default_cooldowns
configuration = record {
  crafty = record defaults { api_token = "secret" };
  servers = ("survival", server) ∷ [];
  polling = default_polling;
  cooldowns = default_cooldowns;
  logging = record {
    level = "INFO";
    file = "/var/log/crafty-server-watcher/service.log";
    max_bytes = pos 10485760;
    backup_count = pos 5;
  };
  webhook = record {
    enabled = false;
    url = "";
    label = "Crafty Server Watcher";
    denied_notify_cooldown_minutes = pos 60;
  };
  health = record { enabled = true; host = "127.0.0.1"; port = pos 8095 };
  crafty_events = record { enabled = false; path = "/events/crafty"; token = "" };
  state_file = "";
}

server_loads : load_server_table python (obj one_server) ≡ loaded (("survival", server) ∷ [])
unfolding load_server_table load_servers load_server load_access access_of get_str get_int get
    is_true str_value int_value whole default_access times server
server_loads = refl

pub file_loads : load_config python environment (parsed (obj small_file)) ≡ loaded configuration
unfolding load_config load_root load_section section look_up load_crafty load_polling load_cooldowns
    load_logging load_webhook load_state load_health load_crafty_events get_str get_int get_bool get
    default_polling default_cooldowns rooted load_server_table load_servers load_server load_access
    access_of is_true str_value int_value whole default_access times configuration server
file_loads = refl

pub no_state : configuration.state_file ≡ ""
unfolding configuration
no_state = refl

pub logging_of : configuration.logging ≡ record {
  level = "INFO";
  file = "/var/log/crafty-server-watcher/service.log";
  max_bytes = pos 10485760;
  backup_count = pos 5;
}
unfolding configuration
logging_of = refl

load_config-IsValid_example : IsValid configuration
load_config-IsValid_example =
    load_config-IsValid python environment (parsed (obj small_file)) configuration file_loads

abbrev watcher : Watcher
unfolding default_polling
watcher = record {
  machines = ("survival", idle_machine) ∷ [];
  polling = default_polling;
  access = ("survival", whitelisting) ∷ [];
}

reload_applies_example :
    let w' = apply plain configuration watcher in
    (find "survival" w'.machines
      ≡ some (record idle_machine {
        cfg = record {
          name = idle_machine.cfg.name;
          crafty_server_id = idle_machine.cfg.crafty_server_id;
          listen_port = idle_machine.cfg.listen_port;
          listen_host = idle_machine.cfg.listen_host;
          edition = idle_machine.cfg.edition;
          idle_timeout_minutes = server.idle_timeout_minutes;
          start_timeout_seconds = server.start_timeout_seconds;
          motd_hibernating = server.motd_hibernating;
          kick_message = server.kick_message;
          access = server.access;
        };
        cooldowns = configuration.cooldowns;
      }))
    × (find "survival" w'.access ≡ some (configured plain server.access whitelisting.logged))
unfolding find watcher configuration
reload_applies_example =
    reload_applies plain configuration watcher "survival" server idle_machine whitelisting refl refl
      refl

-- A file in which the line `polling:` has nothing below it.
abbrev bare_polling : Fields
bare_polling = field "polling" null small_file

crafty_loads :
    load_section (λ r. loaded (load_crafty python r)) bare_polling "crafty" ≡ loaded defaults
unfolding load_section section look_up load_crafty get_str get_bool get
crafty_loads = refl

servers_load :
    load_server_table python (get bare_polling "servers") ≡ loaded (("survival", server) ∷ [])
unfolding get
servers_load = server_loads

empty_section_ends_watcher_example :
    on_reload plain (load_config python environment (parsed (obj bare_polling))) watcher ≡ none
unfolding look_up
empty_section_ends_watcher_example =
    empty_section_ends_watcher plain python environment bare_polling null defaults
      (("survival", server) ∷ []) watcher crafty_loads servers_load refl refl
