-- ===== src/ServerState/Persisted.antt =====
-- The callback always hands out the state that the machine has: what it saw last is up to date.
use crafty_server_watcher.Common.{◌≡◌, true, Option, List, [], ◌∷◌, ℤ, arith}
use crafty_server_watcher.State.{State}
use crafty_server_watcher.ServerState.{ServerStateMachine, Tracked, Effect, changed, transition}

-- The part of a machine that is persisted.
pub record Persisted : Type 0 where
  pub state : State
  pub idle_since : Option ℤ
  pub last_stop_time : Option ℤ
  pub last_start_time : Option ℤ
  pub start_stop_history : List ℤ
  pub start_count : ℤ
  pub stop_count : ℤ

abbrev pub persisted : ServerStateMachine → Persisted
persisted sm = record {
  state = sm.state;
  idle_since = sm.idle_since;
  last_stop_time = sm.last_stop_time;
  last_start_time = sm.last_start_time;
  start_stop_history = sm.start_stop_history;
  start_count = sm.start_count;
  stop_count = sm.stop_count;
}

-- What the last callback saw, or `old` if none has run.
unfoldable pub last_saved : Persisted → List Effect → Persisted
last_saved old [] = old
last_saved old (changed sm ∷ trace) = persisted sm
last_saved old (_ ∷ trace) = last_saved old trace

-- With a callback installed, what it saw last is what the machine holds.
pub record IsSynced (old : Persisted) (c : Tracked) : Type 0 where
  pub installed : c.on_change ≡ true
  pub up_to_date : last_saved old c.trace ≡ persisted c.sm

pub transition-IsSynced :
    (old : Persisted) (now : ℤ) (s : State) (c : Tracked)
    → IsSynced old c
    → IsSynced old (transition now s c)
unfolding transition last_saved
transition-IsSynced old now s c h = ground arith
