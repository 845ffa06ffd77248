-- ===== src/State/Graph.antt =====
-- What the graph of valid transitions allows.
use crafty_server_watcher.Common.{◌≡◌, refl, ◌≢◌, true, false, some}
use crafty_server_watcher.State.{
  State, unknown, online, idle, stopping, stopped, starting, crashed, elem, valid_transitions,
  value, of_value,
}

-- `b` is a valid transition of `a`.
abbrev pub IsEdge : State → State → Type 0
IsEdge a b = elem b (valid_transitions a) ≡ true

-- A walk along valid transitions.
pub data Walk : State → State → Type 0 where
  here : {a : State} → Walk a a
  step : {a b c : State} → IsEdge a b → Walk b c → Walk a c

pub Walk-append : {a b c : State} → Walk a b → Walk b c → Walk a c
Walk-append here w = w
Walk-append (step e v) w = step e (Walk-append v w)

to_stopped : (a : State) → Walk a stopped
unfolding valid_transitions
to_stopped stopped = here
to_stopped _ = step refl here

from_stopped : (b : State) → b ≢ unknown → Walk stopped b
unfolding valid_transitions
from_stopped unknown h = absurd (h refl)
from_stopped online h = step refl here
from_stopped idle h = step refl here
from_stopped stopping h = step {b = idle} refl (step refl here)
from_stopped stopped h = here
from_stopped starting h = step refl here
from_stopped crashed h = step {b = starting} refl (step refl here)

-- From every state a walk leads to every state but UNKNOWN.
pub no_dead_end : (a b : State) → b ≢ unknown → Walk a b
no_dead_end a b h = Walk-append (to_stopped a) (from_stopped b h)

-- UNKNOWN is never entered.
pub unknown_not_entered : (a : State) → elem unknown (valid_transitions a) ≡ false
unfolding valid_transitions
unknown_not_entered unknown = refl
unknown_not_entered _ = refl

-- `State` reads back the text of every member.
pub of_value-value : (s : State) → of_value (value s) ≡ some s
unfolding of_value value
of_value-value unknown = refl
of_value-value _ = refl
