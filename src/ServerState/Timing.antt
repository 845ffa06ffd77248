-- ===== src/ServerState/Timing.antt =====
-- The timing queries of `ServerStateMachine`.
use crafty_server_watcher.Common.{
  ℕ, Bool, false, Option, none, some, count_if, ℤ, pos, ◌-ℤ◌, times, ltb_ℤ, leb_ℤ,
}
use crafty_server_watcher.Config.{minutes}
use crafty_server_watcher.ServerState.{ServerStateMachine}

abbrev elapsed_since : ℤ → Option ℤ → ℤ
elapsed_since now none = pos 0
elapsed_since now (some t) = now -ℤ t

unfoldable pub idle_elapsed : ℤ → ServerStateMachine → ℤ
idle_elapsed now sm = elapsed_since now sm.idle_since

unfoldable pub idle_timeout_reached : ℤ → ServerStateMachine → Bool
unfolding idle_elapsed
idle_timeout_reached now sm = leb_ℤ (minutes sm.cfg.idle_timeout_minutes) (idle_elapsed now sm)

-- `t` is recorded and lies less than `window` back.
abbrev within : ℤ → Option ℤ → ℤ → Bool
within now none window = false
within now (some t) window = ltb_ℤ (now -ℤ t) window

unfoldable pub in_start_grace : ℤ → ServerStateMachine → Bool
in_start_grace now sm = within now sm.last_start_time (minutes sm.cooldowns.start_grace_minutes)

unfoldable pub in_stop_cooldown : ℤ → ServerStateMachine → Bool
in_stop_cooldown now sm = within now sm.last_stop_time (minutes sm.cooldowns.stop_cooldown_minutes)

unfoldable pub recent_cycles : ℤ → ServerStateMachine → ℕ
recent_cycles now sm =
    let cutoff = now -ℤ minutes sm.cooldowns.flap_window_minutes in
    count_if (λ ts. ltb_ℤ cutoff ts) sm.start_stop_history

unfoldable pub is_flapping : ℤ → ServerStateMachine → Bool
unfolding recent_cycles
is_flapping now sm = leb_ℤ (times 2 sm.cooldowns.flap_max_cycles) (pos (recent_cycles now sm))
