-- ===== src/Process/Start.antt =====
-- crafty_server_watcher/__main__.py: the tasks of `_run` as they begin.
use crafty_server_watcher.Common.{String, Bool, false, Option, none, some, List, [], ◌∷◌, ℤ}
use crafty_server_watcher.ServerState.{Snapshot, ServerStateMachine, Machines}
use crafty_server_watcher.AccessControl.{AccessController, configured}
use crafty_server_watcher.Bedrock.{Berth}
use crafty_server_watcher.Managers.{Berths}
use crafty_server_watcher.StateStore.{StateStore, Raising, returned, raised}
use crafty_server_watcher.Startup.{Components}
use crafty_server_watcher.Service.{each, watched_from, slots_from, pending_restore}
use crafty_server_watcher.Process.{
  to_bind, server_end, polling, waiting, unbegun, Loop, berth_pause, berth_end, Process, keys,
}

-- The berths and the controllers of managers that have just been built.
abbrev pub new_berth : ServerStateMachine → Berth
new_berth sm = record {
  machine = record { sm = sm; trace = [] };
  listening = false;
  lockout = false;
  binding = 0;
  spawned = 0;
  pausing = 0;
  calling = 0;
}

unfoldable pub berths_from : Machines → Berths
unfolding each
berths_from machines = each (λ _. new_berth) machines

unfoldable pub access_from : (String → String) → Machines → List (String × AccessController)
access_from casefold [] = []
access_from casefold ((name, sm) ∷ rest) =
    (name, configured casefold sm.cfg.access []) ∷ access_from casefold rest

abbrev loop_for : Berths → Loop
loop_for [] = berth_end
loop_for (_ ∷ _) = berth_pause

-- The process as its tasks begin, with the events as the signals during the start left them.
unfoldable pub begin_process :
    (String → String) → Components → Bool → Bool → List (String × Snapshot) → Process
begin_process casefold c shutdown reload pending = record {
  servers = watched_from pending c.machines;
  failures = 0;
  slots = slots_from c.java;
  berths = berths_from c.bedrock;
  poll_cfg = c.polling;
  access = access_from casefold c.java;
  shutdown = shutdown;
  reload = reload;
  monitor = polling (keys c.machines);
  proxy = waiting;
  reloader = unbegun;
  health = elim c.health [ none ↦ server_end | some _ ↦ to_bind ];
  bedrock = loop_for (berths_from c.bedrock);
}

unfoldable pub when_restored :
    (String → String)
    → Components
    → Bool
    → Bool
    → Raising (List (String × Snapshot))
    → Raising Process
when_restored casefold c shutdown reload (returned pending) =
    returned (begin_process casefold c shutdown reload pending)
when_restored casefold c shutdown reload raised = raised

-- `run` of the idle monitor loads the snapshots first.
unfoldable pub start_process :
    (String → String)
    → (String → Option ℤ)
    → ℤ
    → ℤ
    → Option StateStore
    → Components
    → Bool
    → Bool
    → Raising Process
start_process casefold int_of monotonic wall store c shutdown reload =
    when_restored casefold c shutdown reload (pending_restore int_of monotonic wall store)
