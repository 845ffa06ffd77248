-- ===== src/ServerState/Flapping.antt =====
-- The flap guard, and the bound on what it can count.
use crafty_server_watcher.Common.{
  ◌≡◌, ◌≤◌, false, ℤ, pos, ◌<ℤ◌, count_if-le-length, times_parts, arith,
}
use crafty_server_watcher.ServerState.{ServerStateMachine}
use crafty_server_watcher.ServerState.Timing.{recent_cycles, is_flapping}
use crafty_server_watcher.ServerState.Invariant.{IsSane}

recent_cycles-le : (now : ℤ) (sm : ServerStateMachine) → IsSane sm → recent_cycles now sm ≤ 20
unfolding recent_cycles
recent_cycles-le now sm h =
    omega (arith, count_if-le-length _ sm.start_stop_history, h.history_bounded)

-- The history holds 20 entries at most, so with `flap_max_cycles` above 10 the guard never acts.
pub flap_guard_off :
    (now : ℤ) (sm : ServerStateMachine)
    → IsSane sm
    → pos 10 <ℤ sm.cooldowns.flap_max_cycles
    → is_flapping now sm ≡ false
unfolding is_flapping
flap_guard_off now sm h big =
    ground (arith, recent_cycles-le now sm h, times_parts 2 sm.cooldowns.flap_max_cycles)
