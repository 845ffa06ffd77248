-- ===== src/Examples/Fixture.antt =====
-- A server of a test configuration, and times in seconds.
use crafty_server_watcher.Common.{ℕ, ◌*◌, Bool, true, false, none, some, [], ◌∷◌, ℤ, pos}
use crafty_server_watcher.Config.{ServerConfig, default_access, default_cooldowns, second}
use crafty_server_watcher.State.{idle, stopping, starting}
use crafty_server_watcher.ServerState.{ServerStateMachine, Tracked, Stats, new}

abbrev pub at : ℕ → ℤ
at n = pos (n * second)

abbrev pub survival : ServerConfig
survival = record {
  name = "survival";
  crafty_server_id = "11-22";
  listen_port = pos 25565;
  listen_host = "0.0.0.0";
  edition = "java";
  idle_timeout_minutes = pos 10;
  start_timeout_seconds = pos 180;
  motd_hibernating = "asleep";
  kick_message = "starting";
  access = default_access;
}

abbrev pub fresh : ServerStateMachine
unfolding new default_cooldowns default_access
fresh = new survival default_cooldowns

-- Idle since second 100, with a callback.
abbrev pub idle_machine : ServerStateMachine
idle_machine = record {
  cfg = survival;
  cooldowns = record {
    stop_cooldown_minutes = pos 5;
    start_grace_minutes = pos 3;
    flap_window_minutes = pos 30;
    flap_max_cycles = pos 3;
    flap_backoff_minutes = pos 10;
  };
  state = idle;
  idle_since = some (at 100);
  last_stop_time = none;
  last_start_time = some (at 50);
  start_stop_history = at 50 ∷ [];
  start_count = pos 1;
  stop_count = pos 0;
  last_known_online = pos 0;
  last_known_max = pos 20;
  last_known_version = "1.21";
  last_known_icon = "";
  on_change = true;
}

abbrev pub tracked : ServerStateMachine → Tracked
tracked sm = record { sm = sm; trace = [] }

abbrev pub idle_run : Tracked
idle_run = tracked idle_machine

abbrev pub starting_run : Tracked
starting_run = tracked (record idle_machine { state = starting; idle_since = none })

abbrev pub stopping_run : Tracked
stopping_run = tracked (record idle_machine { state = stopping; idle_since = none })

abbrev pub stats_of : Bool → Bool → ℤ → Stats
stats_of running crashed players = record {
  running = running;
  crashed = crashed;
  online = some players;
  max = some (pos 20);
  version = "1.21";
  icon = "";
  int_ping_results = "False";
}

abbrev pub up_empty : Stats
up_empty = stats_of true false (pos 0)
