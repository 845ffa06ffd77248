-- ===== src/Polling.antt =====
-- crafty_server_watcher/idle_monitor.py with crafty_api.py: the rounds of the monitor over the exchanges
-- with Crafty that they lead to.
pub mod Exchanges
use crafty_server_watcher.Common.{String, Bool, true, false, Option, none, some, List, ℤ, pos}
use crafty_server_watcher.Json.{Json, obj, Fields, get, is_true}
use crafty_server_watcher.Values.{Python, look_up, str_value, int_value}
use crafty_server_watcher.ServerState.{Stats}
use crafty_server_watcher.CraftyApi.{
  CraftyApiClient, Library, Called, returned, connection_error, raised, api_error, get_server_stats,
  stop_server,
}
use crafty_server_watcher.IdleMonitor.Round.{Answer, replied, unreachable, failed, Reply}

module _ (py : Python) where
  -- `int(stats.get(key, default))` and `str(stats.get(key, ""))`
  int_or : ℤ → Option Json → Option ℤ
  int_or default none = some default
  int_or default (some v) = int_value py v

  str_or : Option Json → String
  str_or none = ""
  str_or (some v) = str_value py v

  unfoldable pub stats_of : Fields → Stats
  unfolding int_or str_or
  stats_of reply = record {
    running = is_true (get reply "running");
    crashed = is_true (get reply "crashed");
    online = int_or (pos 0) (look_up reply "online");
    max = int_or (pos 20) (look_up reply "max");
    version = str_or (look_up reply "version");
    icon = str_or (look_up reply "icon");
    int_ping_results = str_or (look_up reply "int_ping_results");
  }

  -- How `get_server_stats` and the reading of the stats end; what is no mapping has no `get`.
  unfoldable pub answer_of : Called Json → Answer
  answer_of (returned (obj reply)) = replied (stats_of reply)
  answer_of (returned _) = failed
  answer_of connection_error = unreachable
  answer_of (api_error status _ _) = Answer.api_error status
  answer_of raised = failed

  -- What the poll of a server meets, from its exchanges with Crafty.
  unfoldable pub reply_for : Library → CraftyApiClient → String → ℤ → ℤ → Reply
  reply_for lib client id now later = record {
    now = now;
    answer = answer_of (get_server_stats lib client id);
    stop_answered = elim (stop_server lib client id) [ returned _ ↦ true | _ ↦ false ];
    later = later;
  }
