-- ===== src/IdleMonitor/Invariant.antt =====
-- Every part of a poll keeps the machine sane and its callback up to date.
use crafty_server_watcher.Common.{◌≡◌, Bool, String, ℤ, arith}
use crafty_server_watcher.State.{State, online, idle, stopping, stopped, crashed}
use crafty_server_watcher.ServerState.{Tracked, Stats, transition, fire_change}
use crafty_server_watcher.ServerState.Invariant.{IsSane, transition-IsSane}
use crafty_server_watcher.ServerState.Persisted.{
  Persisted, IsSynced, transition-IsSynced, last_saved,
}
use crafty_server_watcher.IdleMonitor.{
  check_idle_shutdown, after_stop, on_crashed, on_not_running, on_running, react,
}

check_idle_shutdown-IsSane :
    (now : ℤ) (c : Tracked) → IsSane c.sm → IsSane (check_idle_shutdown now c).0.sm
unfolding check_idle_shutdown
check_idle_shutdown-IsSane now c h = ground (arith, transition-IsSane now stopping c)

on_crashed-IsSane :
    (webhook : Bool) (now : ℤ) (name : String) (c : Tracked)
    → IsSane c.sm
    → IsSane (on_crashed webhook now name c).sm
unfolding on_crashed
on_crashed-IsSane webhook now name c h = ground (arith, transition-IsSane now crashed c)

on_not_running-IsSane : (now : ℤ) (c : Tracked) → IsSane c.sm → IsSane (on_not_running now c).sm
unfolding on_not_running
on_not_running-IsSane now c h = ground (arith, transition-IsSane now stopped c)

on_running-IsSane :
    (now : ℤ) (stats : Stats) (players : ℤ) (s : State) (c : Tracked)
    → IsSane c.sm
    → IsSane (on_running now stats players s c).0.sm
unfolding on_running
on_running-IsSane now stats players idle c h =
    ground (arith, transition-IsSane now online c, check_idle_shutdown-IsSane now c)
on_running-IsSane now stats players _ c h =
    ground (arith, transition-IsSane now idle c, transition-IsSane now online c)

-- The first part of a poll keeps a sane machine sane, whatever Crafty reports.
pub react-IsSane :
    (webhook : Bool) (now : ℤ) (name : String) (stats : Stats) (players : ℤ) (c : Tracked)
    → IsSane c.sm
    → IsSane (react webhook now name stats players c).0.sm
unfolding react
react-IsSane webhook now name stats players c h = ground (
  arith,
  on_crashed-IsSane webhook now name c,
  on_not_running-IsSane now c,
  on_running-IsSane now stats players c.state c,
)

-- A rollback ends in IDLE from whatever state the other tasks have left.
pub state-transition_idle : (now : ℤ) (c : Tracked) → (transition now idle c).state ≡ idle
unfolding transition
state-transition_idle now c = ground arith

pub after_stop-IsSane :
    (webhook : Bool) (name : String) (idle_seconds : ℤ) (answered : Bool) (now : ℤ) (c : Tracked)
    → IsSane c.sm
    → IsSane (after_stop webhook name idle_seconds answered now c).sm
unfolding after_stop fire_change
after_stop-IsSane webhook name d answered now c h =
    ground (arith, transition-IsSane now idle c, state-transition_idle now c)

module _ (old : Persisted) where
  check_idle_shutdown-IsSynced :
      (now : ℤ) (c : Tracked) → IsSynced old c → IsSynced old (check_idle_shutdown now c).0
  unfolding check_idle_shutdown last_saved
  check_idle_shutdown-IsSynced now c h = ground (arith, transition-IsSynced old now stopping c)

  on_crashed-IsSynced :
      (webhook : Bool) (now : ℤ) (name : String) (c : Tracked)
      → IsSynced old c
      → IsSynced old (on_crashed webhook now name c)
  unfolding on_crashed last_saved
  on_crashed-IsSynced webhook now name c h = ground (arith, transition-IsSynced old now crashed c)

  on_not_running-IsSynced :
      (now : ℤ) (c : Tracked) → IsSynced old c → IsSynced old (on_not_running now c)
  unfolding on_not_running
  on_not_running-IsSynced now c h = ground (arith, transition-IsSynced old now stopped c)

  on_running-IsSynced :
      (now : ℤ) (stats : Stats) (players : ℤ) (s : State) (c : Tracked)
      → IsSynced old c
      → IsSynced old (on_running now stats players s c).0
  unfolding on_running
  on_running-IsSynced now stats players idle c h =
      ground (arith, transition-IsSynced old now online c, check_idle_shutdown-IsSynced now c)
  on_running-IsSynced now stats players _ c h =
      ground (arith, transition-IsSynced old now idle c, transition-IsSynced old now online c)

  -- With a callback installed, the first part of a poll leaves the callback up to date: what it saw
  -- last is the persisted part of the machine that the poll leaves.
  pub react-IsSynced :
      (webhook : Bool) (now : ℤ) (name : String) (stats : Stats) (players : ℤ) (c : Tracked)
      → IsSynced old c
      → IsSynced old (react webhook now name stats players c).0
  unfolding react
  react-IsSynced webhook now name stats players c h = ground (
    arith,
    on_crashed-IsSynced webhook now name c,
    on_not_running-IsSynced now c,
    on_running-IsSynced now stats players c.state c,
  )

  -- With a callback installed, what follows the request to stop leaves it up to date as well, also
  -- the rollback of a failed request, which sets the idle clock back after
  -- the transition has run the callback.
  pub after_stop-IsSynced :
      (webhook : Bool) (name : String) (idle_seconds : ℤ) (answered : Bool) (now : ℤ) (c : Tracked)
      → IsSynced old c
      → IsSynced old (after_stop webhook name idle_seconds answered now c)
  unfolding after_stop fire_change last_saved
  after_stop-IsSynced webhook name d answered now c h =
      ground (arith, transition-IsSynced old now idle c)
