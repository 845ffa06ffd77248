-- ===== src/Bedrock.antt =====
-- crafty_server_watcher/bedrock_proxy.py: who holds the UDP port of one Bedrock server. The manager's
-- containers are keyed by the server's name, and what they hold for one server is a berth. Each
-- operation is cut at its `await`s.
pub mod Start
pub mod Datagram
use crafty_server_watcher.Common.{
  ℕ, zero, suc, ◌-◌, Bool, true, false, not, ◌&&◌, if◌then◌else◌, ltb, ℤ, [], ◌∷◌,
}
use crafty_server_watcher.State.{State, starting, stopped, crashed, elem}
use crafty_server_watcher.ServerState.{Tracked, emit, transition, is_proxy_needed, api_start}

-- A server's machine, whether its entry of `_transports` is set, whether it is in `_start_lockout`, how
-- many attempts to bind are in flight, and how many starts are spawned, in the pause of 5 seconds and
-- in the call of `start_server`.
pub record Berth : Type 0 where
  pub machine : Tracked
  pub listening : Bool
  pub lockout : Bool
  pub binding : ℕ
  pub spawned : ℕ
  pub pausing : ℕ
  pub calling : ℕ

abbrev pub is_asleep : Berth → Bool
is_asleep b = elem b.machine.state (stopped ∷ crashed ∷ [])

-- `_start_listener` up to its `await`, and what follows it: an OSError is logged only.
unfoldable pub start_listener : Berth → Berth
start_listener b = record b { binding = suc b.binding }

unfoldable pub bind_answered : Bool → Berth → Berth
bind_answered bound b =
    if ltb 0 b.binding
    then record b { binding = b.binding - 1; listening = if bound then true else b.listening }
    else b

-- `_stop_listener`
unfoldable pub stop_listener : Berth → Berth
stop_listener b = record b { listening = false }

-- The body of the loop of `ensure_listeners`.
unfoldable pub ensure_listener : Berth → Berth
unfolding start_listener stop_listener
ensure_listener b =
    if b.lockout && not (is_asleep b)
    then b
    else let b' = record b { lockout = false } in
      if is_proxy_needed b.machine.sm && not b.listening
      then start_listener b'
      else if not (is_proxy_needed b.machine.sm) && b.listening
      then stop_listener b'
      else b'

-- The last part of `datagram_received`, for an Open Connection Request 1.
unfoldable pub connection_requested : Berth → Berth
connection_requested b = if is_asleep b then record b { spawned = suc b.spawned } else b

-- `trigger_start` up to its pause.
begin_start : Berth → Berth
unfolding stop_listener
begin_start b =
    if b.lockout then b else record (stop_listener b) { lockout = true; pausing = suc b.pausing }

unfoldable pub trigger_start : Berth → Berth
unfolding begin_start
trigger_start b = if ltb 0 b.spawned then begin_start (record b { spawned = b.spawned - 1 }) else b

-- The pause is over: `start_server` is called.
unfoldable pub call_start : Berth → Berth
call_start b =
    if ltb 0 b.pausing
    then record b {
      machine = emit (api_start b.machine.cfg.crafty_server_id) b.machine;
      pausing = b.pausing - 1;
      calling = suc b.calling;
    }
    else b

start_result : ℤ → Bool → Berth → Berth
unfolding start_listener
start_result now true b = record b { machine = transition now starting b.machine }
start_result now false b = start_listener (record b { lockout = false })

-- `start_server` returns, or raises.
unfoldable pub start_answered : ℤ → Bool → Berth → Berth
unfolding start_result
start_answered now answered b =
    if ltb 0 b.calling then start_result now answered (record b { calling = b.calling - 1 }) else b
