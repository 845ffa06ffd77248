-- ===== src/Process.antt =====
-- crafty_server_watcher/__main__.py, `_run` from its tasks on, with the signal handlers, and `run` of every
-- component: the tasks take turns on the machines that they share. A turn goes from one `await` to the
-- next; a task may go on before a bind that it awaits has ended, which only adds orders.
pub mod Tasks
pub mod Start
mod Induction
pub mod Sharing
pub mod Sanity
pub mod Work
pub mod Ending
mod Kept
pub mod Reloading
pub mod Early
mod Finding
pub mod View
pub mod Begun
pub mod Afterwards
pub mod Restart
use crafty_server_watcher.Common.{
  ℕ, String, Bool, true, false, ◌&&◌, ◌||◌, Option, none, some, List, [], ◌∷◌, map, if◌then◌else◌,
  ℤ, str_eq,
}
use crafty_server_watcher.Config.{PollingConfig}
use crafty_server_watcher.ServerState.{ServerStateMachine, Machines, Tracked}
use crafty_server_watcher.AccessControl.{AccessController}
use crafty_server_watcher.Reload.{find}
use crafty_server_watcher.Bedrock.{Berth}
use crafty_server_watcher.Health.{Slots}
use crafty_server_watcher.Managers.{Berths}
use crafty_server_watcher.IdleMonitor.{Watched}
use crafty_server_watcher.Service.{each, to_slots, to_servers}

-- Where the idle monitor stands: in a round, with the servers still to be polled; in the call of `stop_server`
-- for a server that was idle for some time; in `ensure_listeners`; in the pause; or returned.
pub data Monitor : Type 0 where
  polling ensuring : List String → Monitor
  asking : String → ℤ → List String → Monitor
  monitor_pause monitor_end : Monitor

-- A task that waits for the shutdown.
pub data Task : Type 0 where
  waiting ended : Task

-- The health server: before its port is bound, waiting for the shutdown, returned, or ended by an exception.
pub data Server : Type 0 where
  to_bind serving server_end server_failed : Server

-- `_reload_watcher`: before its first turn, in its wait, returned, or ended by an exception.
pub data Reloader : Type 0 where
  unbegun attentive reloader_end reloader_failed : Reloader

-- The Bedrock manager: in `ensure_listeners`, in the pause, or returned.
pub data Loop : Type 0 where
  ensuring_berths : List String → Loop
  berth_pause berth_end : Loop

-- The state that the tasks share, the two events, and where each task stands. A task that was not made,
-- for want of a health server or of Bedrock servers, is at its end.
pub record Process : Type 0 where
  pub servers : List (String × Watched)
  pub failures : ℕ
  pub slots : Slots
  pub berths : Berths
  pub poll_cfg : PollingConfig
  pub access : List (String × AccessController)
  pub shutdown : Bool
  pub reload : Bool
  pub monitor : Monitor
  pub proxy : Task
  pub reloader : Reloader
  pub health : Server
  pub bedrock : Loop

abbrev pub is_ended : Task → Bool
is_ended ended = true
is_ended waiting = false

abbrev pub monitor_ended : Monitor → Bool
monitor_ended monitor_end = true
monitor_ended _ = false

abbrev pub reloader_ended : Reloader → Bool
reloader_ended reloader_end = true
reloader_ended _ = false

abbrev pub has_failed : Reloader → Bool
has_failed reloader_failed = true
has_failed _ = false

abbrev pub server_ended : Server → Bool
server_ended server_end = true
server_ended _ = false

abbrev pub cannot_serve : Server → Bool
cannot_serve server_failed = true
cannot_serve _ = false

abbrev pub loop_ended : Loop → Bool
loop_ended berth_end = true
loop_ended _ = false

-- `asyncio.gather` is over: every task has returned, or one has raised.
unfoldable pub is_over : Process → Bool
is_over p =
    has_failed p.reloader
    || cannot_serve p.health
    || (monitor_ended p.monitor
        && (is_ended p.proxy
            && (reloader_ended p.reloader && (server_ended p.health && loop_ended p.bedrock))))

-- `d[name] = f(d[name])` of a dictionary that has the name.
unfoldable pub at_key {ℓ} : {V : Type ℓ} → String → (V → V) → List (String × V) → List (String × V)
at_key name f [] = []
at_key name f ((n, v) ∷ rest) =
    let others = at_key name f rest in if str_eq n name then (n, f v) ∷ rest else (n, v) ∷ others

abbrev pub keys {ℓ} : {V : Type ℓ} → List (String × V) → List String
keys [] = []
keys ((n, v) ∷ rest) = n ∷ keys rest

-- The machines are shared: what one holder of a machine did to it, the others see.
abbrev pub berth_machine : Option Watched → Berth → Berth
berth_machine none b = b
berth_machine (some w) b = record b { machine = w.machine }

unfoldable pub to_berths : List (String × Watched) → Berths → Berths
unfolding each
to_berths servers berths = each (λ name. berth_machine (find name servers)) berths

abbrev pub berthed_machine : Option Berth → Watched → Watched
berthed_machine none w = w
berthed_machine (some b) w = record w { machine = b.machine }

unfoldable pub from_berths : Berths → List (String × Watched) → List (String × Watched)
unfolding each
from_berths berths servers = each (λ name. berthed_machine (find name berths)) servers

unfoldable pub set_servers : List (String × Watched) → Process → Process
set_servers servers p = record p {
  servers = servers;
  slots = to_slots servers p.slots;
  berths = to_berths servers p.berths;
}

unfoldable pub set_slots : Slots → Process → Process
set_slots slots p = record p { slots = slots; servers = to_servers slots p.servers }

unfoldable pub set_berths : Berths → Process → Process
set_berths berths p = record p { berths = berths; servers = from_berths berths p.servers }
