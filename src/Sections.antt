-- ===== src/Sections.antt =====
-- crafty_server_watcher/config.py: the loaders of the sections beside the servers.
use Prim.Native.Char.{char, code}
use crafty_server_watcher.Common.{
  String, Bool, true, false, not, ◌&&◌, if◌then◌else◌, ◌==◌, pos, str_eq,
}
use crafty_server_watcher.Config.{
  PollingConfig, CooldownConfig, CraftyConfig, WebhookConfig, LoggingConfig, HealthConfig,
  CraftyEventsConfig, default_polling, default_cooldowns,
}
use crafty_server_watcher.Json.{Fields}
use crafty_server_watcher.Values.{Python}
use crafty_server_watcher.Loading.{Loading, loaded, ◌>>=◌, ◌>>◌, check, get_str, get_int, get_bool}

-- `if not path.startswith("/"): path = "/" + path`
abbrev pub is_rooted : String → Bool
is_rooted String.[] = false
is_rooted (String.◌∷◌ c s) = code c == 47

unfoldable pub rooted : String → String
rooted path = if is_rooted path then path else String.◌∷◌ (char 47 tt) path

module _ (py : Python) where
  unfoldable pub load_crafty : Fields → CraftyConfig
  load_crafty raw = record {
    base_url = get_str py raw "base_url" "https://localhost:8443";
    api_token_env = get_str py raw "api_token_env" "CRAFTY_API_TOKEN";
    verify_tls = get_bool py raw "verify_tls" true;
    api_token = "";
  }

  unfoldable pub load_polling : Fields → Loading PollingConfig
  unfolding default_polling
  load_polling raw = do
    interval ← get_int py raw "interval_seconds" default_polling.interval_seconds
    delay ← get_int py raw "api_retry_delay_seconds" default_polling.api_retry_delay_seconds
    retries ← get_int py raw "api_max_retries" default_polling.api_max_retries
    loaded (record {
      interval_seconds = interval;
      api_retry_delay_seconds = delay;
      api_max_retries = retries;
    })

  unfoldable pub load_cooldowns : Fields → Loading CooldownConfig
  unfolding default_cooldowns
  load_cooldowns raw = do
    stop ← get_int py raw "stop_cooldown_minutes" default_cooldowns.stop_cooldown_minutes
    grace ← get_int py raw "start_grace_minutes" default_cooldowns.start_grace_minutes
    window ← get_int py raw "flap_window_minutes" default_cooldowns.flap_window_minutes
    cycles ← get_int py raw "flap_max_cycles" default_cooldowns.flap_max_cycles
    backoff ← get_int py raw "flap_backoff_minutes" default_cooldowns.flap_backoff_minutes
    loaded (record {
      stop_cooldown_minutes = stop;
      start_grace_minutes = grace;
      flap_window_minutes = window;
      flap_max_cycles = cycles;
      flap_backoff_minutes = backoff;
    })

  unfoldable pub load_logging : Fields → Loading LoggingConfig
  load_logging raw = do
    size ← get_int py raw "max_bytes" (pos 10485760)
    count ← get_int py raw "backup_count" (pos 5)
    loaded (record {
      level = get_str py raw "level" "INFO";
      file = get_str py raw "file" "/var/log/crafty-server-watcher/service.log";
      max_bytes = size;
      backup_count = count;
    })

  unfoldable pub load_webhook : Fields → Loading WebhookConfig
  load_webhook raw = do
    let enabled = get_bool py raw "enabled" false
    let url = get_str py raw "url" ""
    cooldown ← get_int py raw "denied_notify_cooldown_minutes" (pos 60)
    check (not (enabled && str_eq url ""))
    loaded (record {
      enabled = enabled;
      url = url;
      label = get_str py raw "label" "Crafty Server Watcher";
      denied_notify_cooldown_minutes = cooldown;
    })

  unfoldable pub load_state : Fields → String
  load_state raw = get_str py raw "file" ""

  unfoldable pub load_health : Fields → Loading HealthConfig
  load_health raw = do
    port ← get_int py raw "port" (pos 8095)
    loaded (record {
      enabled = get_bool py raw "enabled" true;
      host = get_str py raw "host" "127.0.0.1";
      port = port;
    })

  unfoldable pub load_crafty_events : Fields → CraftyEventsConfig
  load_crafty_events raw = record {
    enabled = get_bool py raw "enabled" false;
    path = rooted (get_str py raw "path" "/events/crafty");
    token = get_str py raw "token" "";
  }
