-- ===== src/Service.antt =====
-- crafty_server_watcher/idle_monitor.py, `run`: the snapshots are loaded, and rounds follow one another. The
-- proxy's slots have the same machines as the monitor, and its tasks move them between the rounds.
pub mod Sanity
pub mod Restart
use crafty_server_watcher.Common.{
  ℕ, String, Bool, false, Option, none, some, List, [], ◌∷◌, if◌then◌else◌, ℤ, str_eq,
}
use crafty_server_watcher.ServerState.{Snapshot, ServerStateMachine, Machines, Tracked}
use crafty_server_watcher.StateStore.{StateStore, Raising, returned, raised, load}
use crafty_server_watcher.Reload.{find}
use crafty_server_watcher.Proxy.{Slot, resting}
use crafty_server_watcher.Proxy.Schedule.{Move, advance}
use crafty_server_watcher.Health.{Slots}
use crafty_server_watcher.Managers.{ensure_listeners}
use crafty_server_watcher.IdleMonitor.{Watched}
use crafty_server_watcher.IdleMonitor.Round.{Reply, poll_all}

-- A change of every value of a dictionary, by its name.
unfoldable pub each {ℓ κ} :
    {V : Type ℓ} {W : Type κ} → (String → V → W) → List (String × V) → List (String × W)
each f [] = []
each f ((name, v) ∷ rest) = (name, f name v) ∷ each f rest

-- The machines with their entries of `_pending_restore`.
abbrev pub watched_with : Option Snapshot → ServerStateMachine → Watched
watched_with pending sm = record { machine = record { sm = sm; trace = [] }; pending = pending }

unfoldable pub watched_from : List (String × Snapshot) → Machines → List (String × Watched)
unfolding each
watched_from pending machines = each (λ name. watched_with (find name pending)) machines

-- The slots of a proxy manager that has just been built.
abbrev pub new_slot : ServerStateMachine → Slot
new_slot sm = record {
  machine = record { sm = sm; trace = [] };
  listening = false;
  lockout = false;
  rebind = resting;
  spawned = 0;
  closing = 0;
  pausing = 0;
  calling = 0;
}

unfoldable pub slots_from : Machines → Slots
unfolding each
slots_from machines = each (λ _. new_slot) machines

-- The monitor's view of the servers, its counter of failures, and the proxy's slots.
pub record Service : Type 0 where
  pub servers : List (String × Watched)
  pub failures : ℕ
  pub slots : Slots

-- A round, and the moves of the other tasks up to the next one.
pub record Turn : Type 0 where
  pub reply : String → Reply
  pub moves : List (String × Move)

-- A slot sees what the monitor did to its machine, and the monitor what the proxy's tasks did.
abbrev pub slot_machine : Option Watched → Slot → Slot
slot_machine none p = p
slot_machine (some w) p = record p { machine = w.machine }

unfoldable pub to_slots : List (String × Watched) → Slots → Slots
unfolding each
to_slots servers slots = each (λ name. slot_machine (find name servers)) slots

abbrev pub watched_machine : Option Slot → Watched → Watched
watched_machine none w = w
watched_machine (some p) w = record w { machine = p.machine }

unfoldable pub to_servers : Slots → List (String × Watched) → List (String × Watched)
unfolding each
to_servers slots servers = each (λ name. watched_machine (find name slots)) servers

unfoldable pub move_slot : Bool → String → Move → Slots → Slots
move_slot webhook name m [] = []
move_slot webhook name m ((n, p) ∷ rest) =
    let others = move_slot webhook name m rest in
    if str_eq n name then (n, advance webhook n m p) ∷ rest else (n, p) ∷ others

unfoldable pub move_slots : Bool → List (String × Move) → Slots → Slots
move_slots webhook [] slots = slots
move_slots webhook ((name, m) ∷ rest) slots =
    move_slots webhook rest (move_slot webhook name m slots)

-- `_poll_all`, `ensure_listeners`, and the other tasks in the pause.
unfoldable pub turn : Bool → Turn → Service → Service
turn webhook t s =
    let (servers, failures) = poll_all webhook t.reply s.servers s.failures in
    let slots = move_slots webhook t.moves (ensure_listeners (to_slots servers s.slots)) in
    record { servers = to_servers slots servers; failures = failures; slots = slots }

unfoldable pub turns : Bool → List Turn → Service → Service
turns webhook [] s = s
turns webhook (t ∷ rest) s = turns webhook rest (turn webhook t s)

-- `self._store.load()`, if there is a store.
unfoldable pub pending_restore :
    (String → Option ℤ) → ℤ → ℤ → Option StateStore → Raising (List (String × Snapshot))
pending_restore int_of monotonic wall none = returned []
pending_restore int_of monotonic wall (some store) = load int_of monotonic wall store

unfoldable pub begin_turns :
    Bool → List Turn → Machines → Machines → Raising (List (String × Snapshot)) → Raising Service
begin_turns webhook all machines java (returned pending) = returned (
    turns webhook all
      (record { servers = watched_from pending machines; failures = 0; slots = slots_from java }))
begin_turns webhook all machines java raised = raised

-- `run` with the proxy for the Java servers, whose first round is the discovery of the states.
unfoldable pub run_monitor :
    Bool
    → (String → Option ℤ)
    → ℤ
    → ℤ
    → Option StateStore
    → Turn
    → List Turn
    → Machines
    → Machines
    → Raising Service
run_monitor webhook int_of monotonic wall store first rest machines java =
    begin_turns webhook (first ∷ rest) machines java (pending_restore int_of monotonic wall store)
