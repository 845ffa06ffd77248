-- ===== src/ServerState.antt =====
-- crafty_server_watcher/server_state.py: the life cycle of one server, its clocks and its counters.
-- Each function takes the reading of `time.monotonic()` that it would make. What a machine tells the
-- outside stands on a trace, the newest entry first.
pub mod Timing
pub mod Invariant
pub mod Persisted
pub mod Flapping
use crafty_server_watcher.Common.{
  String, Bool, true, false, not, Option, none, some, List, [], ◌∷◌, ◌++◌, if◌then◌else◌, last_n, ℤ,
  pos, ◌+ℤ◌,
}
use crafty_server_watcher.Config.{ServerConfig, CooldownConfig}
use crafty_server_watcher.State.{
  State, unknown, online, idle, stopping, stopped, starting, crashed, same, elem, valid_transitions,
  of_value,
}

-- `start_stop_history` is a `deque(maxlen=20)`, its oldest entry first.
pub record ServerStateMachine : Type 0 where
  pub cfg : ServerConfig
  pub cooldowns : CooldownConfig
  pub state : State
  pub idle_since : Option ℤ
  pub last_stop_time : Option ℤ
  pub last_start_time : Option ℤ
  pub start_stop_history : List ℤ
  pub start_count : ℤ
  pub stop_count : ℤ
  pub last_known_online : ℤ
  pub last_known_max : ℤ
  pub last_known_version : String
  pub last_known_icon : String
  -- Whether a callback is installed.
  pub on_change : Bool

-- The machines of all servers by their names, as the dictionaries of the program hold them.
abbrev pub Machines : Type 0
Machines = List (String × ServerStateMachine)

-- The dataclass's defaults.
unfoldable pub new : ServerConfig → CooldownConfig → ServerStateMachine
new cfg cooldowns = record {
  cfg = cfg;
  cooldowns = cooldowns;
  state = unknown;
  idle_since = none;
  last_stop_time = none;
  last_start_time = none;
  start_stop_history = [];
  start_count = pos 0;
  stop_count = pos 0;
  last_known_online = pos 0;
  last_known_max = pos 20;
  last_known_version = "";
  last_known_icon = "";
  on_change = false;
}

-- What the components do outside their own state: the callback with the machine as it reads it,
-- the two requests to the Crafty API, the notifications that are put on their way, and the message
-- with which a player is disconnected.
pub data Effect : Type 0 where
  changed : ServerStateMachine → Effect
  api_stop api_start : String → Effect
  notify_crashed : String → Effect
  notify_stopped : String → ℤ → String → Effect
  notify_started : String → String → String → Effect
  notify_denied : String → String → String → Effect
  disconnect : String → Effect

-- A machine with what it has done so far, the newest effect first.
pub record Tracked : Type 0 where
  pub sm : ServerStateMachine
  pub open sm use *
  pub trace : List Effect

abbrev pub emit : Effect → Tracked → Tracked
emit e c = record c { trace = e ∷ c.trace }

-- `if self.on_change is not None: self.on_change()`
unfoldable pub fire_change : Tracked → Tracked
fire_change c = if c.on_change then emit (changed c.sm) c else c

-- `deque.append` with `maxlen=20`: a full queue drops its oldest entry.
unfoldable pub append_history : List ℤ → ℤ → List ℤ
append_history h now = last_n 20 (h ++ now ∷ [])

-- The bookkeeping of `transition`, by the state that is entered.
unfoldable pub enter : State → ℤ → ServerStateMachine → ServerStateMachine
enter idle now sm = record sm { state = idle; idle_since = some now }
enter stopping now sm = record sm { state = stopping; idle_since = none }
enter stopped now sm = record sm {
  state = stopped;
  idle_since = none;
  last_stop_time = some now;
  stop_count = sm.stop_count +ℤ pos 1;
  start_stop_history = append_history sm.start_stop_history now;
}
enter starting now sm = record sm {
  state = starting;
  last_start_time = some now;
  start_count = sm.start_count +ℤ pos 1;
  start_stop_history = append_history sm.start_stop_history now;
}
enter online now sm = record sm { state = online; idle_since = none }
enter crashed now sm = record sm { state = crashed }
enter unknown now sm = record sm { state = unknown }

unfoldable pub transition : ℤ → State → Tracked → Tracked
unfolding enter fire_change valid_transitions
transition now new_state c =
    if same new_state c.state
    then c
    else if not (elem new_state (valid_transitions c.state))
    then c
    else fire_change (record c { sm = enter new_state now c.sm })

-- What `StateStore.load` hands to `restore`: `state` is `none` where the file held no text.
pub record Snapshot : Type 0 where
  pub state : Option String
  pub idle_since : Option ℤ
  pub last_stop_time : Option ℤ
  pub last_start_time : Option ℤ
  pub start_stop_history : List ℤ
  pub start_count : ℤ
  pub stop_count : ℤ

abbrev pub saved_state : Option String → Option State
saved_state none = none
saved_state (some t) = of_value t

-- `saved_state not in (State.STOPPED, State.CRASHED, State.UNKNOWN)`
abbrev pub is_running : State → Bool
is_running s = not (elem s (stopped ∷ crashed ∷ unknown ∷ []))

abbrev pub same_bool : Bool → Bool → Bool
same_bool true b = b
same_bool false b = not b

adopt : Snapshot → State → ServerStateMachine → ServerStateMachine
adopt snapshot s sm = record sm {
  state = s;
  idle_since = snapshot.idle_since;
  last_stop_time = snapshot.last_stop_time;
  last_start_time = snapshot.last_start_time;
  start_stop_history = last_n 20 snapshot.start_stop_history;
  start_count = snapshot.start_count;
  stop_count = snapshot.stop_count;
}

unfoldable pub reconcile :
    Snapshot → Bool → ServerStateMachine → Option State → ServerStateMachine × Bool
unfolding adopt
reconcile snapshot running sm none = (sm, false)
reconcile snapshot running sm (some s) =
    if same_bool (is_running s) running then (adopt snapshot s sm, true) else (sm, false)

-- The machine afterwards, and whether the snapshot was adopted.
unfoldable pub restore : Snapshot → Bool → ServerStateMachine → ServerStateMachine × Bool
unfolding reconcile
restore snapshot running sm = reconcile snapshot running sm (saved_state snapshot.state)

unfoldable pub is_proxy_needed : ServerStateMachine → Bool
is_proxy_needed sm = elem sm.state (stopped ∷ crashed ∷ [])

-- A stats reply after `bool`, `int` and `str` with their defaults: `none` is a number that `int`
-- refuses.
pub record Stats : Type 0 where
  pub running : Bool
  pub crashed : Bool
  pub online : Option ℤ
  pub max : Option ℤ
  pub version : String
  pub icon : String
  pub int_ping_results : String

-- The machine afterwards, and whether every number was read: an exception leaves the fields that
-- come later as they were.
unfoldable pub update_from_stats : Stats → ServerStateMachine → ServerStateMachine × Bool
update_from_stats stats sm = elim stats.online [
  | none ↦ (sm, false)
  | some n ↦ elim stats.max [
    | none ↦ (record sm { last_known_online = n }, false)
    | some m ↦ (
      record sm {
        last_known_online = n;
        last_known_max = m;
        last_known_version = stats.version;
        last_known_icon = stats.icon;
      },
      true,
    )
  ]
]
