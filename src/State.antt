-- ===== src/State.antt =====
-- The enum `State` of crafty_server_watcher/server_state.py and its graph of valid transitions.
pub mod Graph
use crafty_server_watcher.Common.{
  ℕ, String, Bool, false, ◌||◌, Option, none, some, List, [], ◌∷◌, ◌==◌, if◌then◌else◌, str_eq,
}

pub data State : Type 0 where
  unknown online idle stopping stopped starting crashed : State

abbrev rank : State → ℕ
rank unknown = 0
rank online = 1
rank idle = 2
rank stopping = 3
rank stopped = 4
rank starting = 5
rank crashed = 6

-- `==` of two members of the enum.
abbrev pub same : State → State → Bool
same a b = rank a == rank b

abbrev pub elem : State → List State → Bool
elem a [] = false
elem a (b ∷ bs) = same a b || elem a bs

-- `_VALID_TRANSITIONS`
unfoldable pub valid_transitions : State → List State
valid_transitions unknown = online ∷ idle ∷ stopped ∷ crashed ∷ []
valid_transitions online = idle ∷ stopped ∷ crashed ∷ []
valid_transitions idle = online ∷ stopping ∷ stopped ∷ crashed ∷ []
valid_transitions stopping = stopped ∷ crashed ∷ online ∷ idle ∷ []
valid_transitions stopped = starting ∷ online ∷ idle ∷ []
valid_transitions starting = online ∷ idle ∷ stopped ∷ crashed ∷ []
valid_transitions crashed = stopped ∷ online ∷ idle ∷ starting ∷ []

-- `State.value`
unfoldable pub value : State → String
value unknown = "UNKNOWN"
value online = "ONLINE"
value idle = "IDLE"
value stopping = "STOPPING"
value stopped = "STOPPED"
value starting = "STARTING"
value crashed = "CRASHED"

-- `State(text)`; `none` is its `ValueError`.
unfoldable pub of_value : String → Option State
of_value t =
    if str_eq t "UNKNOWN"
    then some unknown
    else if str_eq t "ONLINE"
    then some online
    else if str_eq t "IDLE"
    then some idle
    else if str_eq t "STOPPING"
    then some stopping
    else if str_eq t "STOPPED"
    then some stopped
    else if str_eq t "STARTING"
    then some starting
    else if str_eq t "CRASHED"
    then some crashed
    else none
