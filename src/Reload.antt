-- ===== src/Reload.antt =====
-- crafty_server_watcher/__main__.py: what SIGHUP does to the running watcher.
pub mod Effect
use crafty_server_watcher.Common.{
  String, Bool, true, false, Option, none, some, List, [], ◌∷◌, if◌then◌else◌, str_eq,
}
use crafty_server_watcher.Config.{
  ServerConfig, PollingConfig, CooldownConfig, AppConfig, AccessConfig,
}
use crafty_server_watcher.ServerState.{ServerStateMachine}
use crafty_server_watcher.AccessControl.{AccessController, update}
use crafty_server_watcher.Loading.{Loading, loaded, config_error, raised}

-- The machines, the polling settings of the idle monitor, and the proxy's access controllers, which the
-- Java servers have.
pub record Watcher : Type 0 where
  pub machines : List (String × ServerStateMachine)
  pub polling : PollingConfig
  pub access : List (String × AccessController)

-- `d.get(name)` of a dictionary
unfoldable pub find {ℓ} : {V : Type ℓ} → String → List (String × V) → Option V
find name [] = none
find name ((n, v) ∷ rest) = if str_eq n name then some v else find name rest

-- The settings that a reload carries over to a server's configuration.
unfoldable pub take_over : ServerConfig → ServerConfig → ServerConfig
take_over new cfg = record cfg {
  idle_timeout_minutes = new.idle_timeout_minutes;
  start_timeout_seconds = new.start_timeout_seconds;
  motd_hibernating = new.motd_hibernating;
  kick_message = new.kick_message;
  access = new.access;
}

take_over_found : Option ServerConfig → ServerConfig → ServerConfig
take_over_found none cfg = cfg
take_over_found (some new) cfg = take_over new cfg

-- One turn of the two loops over the machines.
unfoldable pub reload_machine : AppConfig → String → ServerStateMachine → ServerStateMachine
unfolding take_over_found
reload_machine new name sm = record sm {
  cfg = take_over_found (find name new.servers) sm.cfg;
  cooldowns = new.cooldowns;
}

unfoldable pub reload_machines :
    AppConfig → List (String × ServerStateMachine) → List (String × ServerStateMachine)
reload_machines new [] = []
reload_machines new ((name, sm) ∷ rest) =
    (name, reload_machine new name sm) ∷ reload_machines new rest

update_found : (String → String) → Option ServerStateMachine → AccessController → AccessController
update_found casefold none access = access
update_found casefold (some sm) access = update casefold sm.cfg.access access

-- `reload_access`
unfoldable pub reload_access :
    (String → String)
    → List (String × ServerStateMachine)
    → List (String × AccessController)
    → List (String × AccessController)
unfolding update_found
reload_access casefold machines [] = []
reload_access casefold machines ((name, access) ∷ rest) =
    (name, update_found casefold (find name machines) access) ∷ reload_access casefold machines rest

unfoldable pub apply : (String → String) → AppConfig → Watcher → Watcher
apply casefold new w =
    let machines = reload_machines new w.machines in
    record {
      machines = machines;
      polling = new.polling;
      access = reload_access casefold machines w.access;
    }

-- A reload by what `load_config` gives: a ConfigError keeps everything, and any other exception ends
-- the task, and with it `asyncio.gather` and the process.
unfoldable pub on_reload : (String → String) → Loading AppConfig → Watcher → Option Watcher
on_reload casefold (loaded new) w = some (apply casefold new w)
on_reload casefold config_error w = some w
on_reload casefold raised w = none
