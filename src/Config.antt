-- ===== src/Config.antt =====
-- The data classes of crafty_server_watcher/config.py that the running watcher reads.
use crafty_server_watcher.Common.{ℕ, ◌*◌, String, Bool, List, [], ℤ, pos, times}

-- Python's float seconds are whole ticks: `second` of them make a second.
abbrev pub second : ℕ
second = 1000000

-- A configured number of seconds or minutes, in ticks.
abbrev pub seconds : ℤ → ℤ
seconds n = times second n

abbrev pub minutes : ℤ → ℤ
minutes n = times (60 * second) n

-- `mode` is "off" or "whitelist"; an empty `whitelist_file` means none.
pub record AccessConfig : Type 0 where
  pub mode : String
  pub whitelist_file : String
  pub allowed_players : List String
  pub deny_message : String

pub record ServerConfig : Type 0 where
  pub name : String
  pub crafty_server_id : String
  pub listen_port : ℤ
  pub listen_host : String
  pub edition : String
  pub idle_timeout_minutes : ℤ
  pub start_timeout_seconds : ℤ
  pub motd_hibernating : String
  pub kick_message : String
  pub access : AccessConfig

pub record PollingConfig : Type 0 where
  pub interval_seconds : ℤ
  pub api_retry_delay_seconds : ℤ
  pub api_max_retries : ℤ

pub record CooldownConfig : Type 0 where
  pub stop_cooldown_minutes : ℤ
  pub start_grace_minutes : ℤ
  pub flap_window_minutes : ℤ
  pub flap_max_cycles : ℤ
  pub flap_backoff_minutes : ℤ

unfoldable pub default_access : AccessConfig
default_access = record {
  mode = "off";
  whitelist_file = "";
  allowed_players = [];
  deny_message = "§cThis server is private.\n§7You are not on the whitelist.";
}

unfoldable pub default_polling : PollingConfig
default_polling = record {
  interval_seconds = pos 30;
  api_retry_delay_seconds = pos 10;
  api_max_retries = pos 3;
}

unfoldable pub default_cooldowns : CooldownConfig
default_cooldowns = record {
  stop_cooldown_minutes = pos 5;
  start_grace_minutes = pos 3;
  flap_window_minutes = pos 30;
  flap_max_cycles = pos 3;
  flap_backoff_minutes = pos 10;
}

-- `api_token` is set by `resolve_token`.
pub record CraftyConfig : Type 0 where
  pub base_url : String
  pub api_token_env : String
  pub verify_tls : Bool
  pub api_token : String

pub record WebhookConfig : Type 0 where
  pub enabled : Bool
  pub url : String
  pub label : String
  pub denied_notify_cooldown_minutes : ℤ

pub record LoggingConfig : Type 0 where
  pub level : String
  pub file : String
  pub max_bytes : ℤ
  pub backup_count : ℤ

pub record HealthConfig : Type 0 where
  pub enabled : Bool
  pub host : String
  pub port : ℤ

pub record CraftyEventsConfig : Type 0 where
  pub enabled : Bool
  pub path : String
  pub token : String

-- `StateConfig` has the one field `file`. The servers are in the order of the file.
pub record AppConfig : Type 0 where
  pub crafty : CraftyConfig
  pub servers : List (String × ServerConfig)
  pub polling : PollingConfig
  pub cooldowns : CooldownConfig
  pub logging : LoggingConfig
  pub webhook : WebhookConfig
  pub health : HealthConfig
  pub crafty_events : CraftyEventsConfig
  pub state_file : String
