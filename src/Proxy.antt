-- ===== src/Proxy.antt =====
-- crafty_server_watcher/proxy_listener.py: who holds the port of one server.
-- The manager's containers are keyed by the server's name, and no operation mixes two names, so what
-- they hold for one server is a slot. Each operation is cut at its `await`s into parts that run without
-- a break; the parts run in any order (Proxy/Schedule). As in Python 3.11, on which the
-- image runs, `wait_closed` of a closed listener does not wait.
pub mod Schedule
pub mod Safety
pub mod Rebinding
pub mod Refinement
pub mod Port
use crafty_server_watcher.Common.{
  ℕ, zero, suc, ◌+◌, ◌-◌, String, Bool, true, false, not, ◌&&◌, ◌||◌, List, [], ◌∷◌, if◌then◌else◌,
  ltb, ℤ,
}
use crafty_server_watcher.State.{State, stopping, stopped, starting, crashed, same, elem}
use crafty_server_watcher.ServerState.{
  Tracked, emit, transition, is_proxy_needed, api_start, disconnect, notify_crashed, notify_stopped,
  notify_started, notify_denied,
}

-- `CRAFTY_CONSOLE` of crafty_events.py.
abbrev pub crafty_console : String
crafty_console = "Crafty (console or API)"

-- Where `_start_listener` stands for this server: not running, in `await asyncio.start_server`, or in
-- the pause after a failed attempt. The name is in `_rebinding` unless it rests.
pub data Rebind : Type 0 where
  resting : Rebind
  binding sleeping : ℕ → Rebind

abbrev pub is_resting : Rebind → Bool
is_resting resting = true
is_resting _ = false

-- A server's machine, whether its entry of `_listeners` is set, whether it is in `_start_lockout`,
-- its rebind, how many `_start_listener` tasks are spawned and not yet begun, and how many logins
-- wait for their connection to close, in the pause before `start_server` and in that call.
pub record Slot : Type 0 where
  pub machine : Tracked
  pub listening : Bool
  pub lockout : Bool
  pub rebind : Rebind
  pub spawned : ℕ
  pub closing : ℕ
  pub pausing : ℕ
  pub calling : ℕ

abbrev pub state_of : Slot → State
state_of p = p.machine.state

abbrev pub is_down : Slot → Bool
is_down p = elem (state_of p) (stopped ∷ crashed ∷ [])

abbrev on_machine : (Tracked → Tracked) → Slot → Slot
on_machine f p = record p { machine = f p.machine }

-- `_stop_listener`
unfoldable pub stop_listener : Slot → Slot
stop_listener p = record p { listening = false }

-- One turn of the loop of `_start_listener`, up to the attempt to bind.
unfoldable pub attempt : ℕ → Slot → Slot
attempt n p = record p { rebind = if p.lockout then resting else binding n }

-- `_start_listener` up to its first `await`.
unfoldable pub start_listener : Slot → Slot
unfolding attempt
start_listener p = if p.listening then p else if not (is_resting p.rebind) then p else attempt 0 p

-- The rest of a turn, by whether the port could be bound: after the 15th failure the loop ends.
bind_result : Bool → Rebind → Slot → Slot
bind_result true (binding n) p = record p { listening = true; rebind = resting }
bind_result false (binding n) p = record p { rebind = if ltb n 14 then sleeping n else resting }
bind_result bound _ p = p

unfoldable pub bind_answered : Bool → Slot → Slot
unfolding bind_result
bind_answered bound p = bind_result bound p.rebind p

-- The pause between two attempts is over.
next_attempt : Rebind → Slot → Slot
unfolding attempt
next_attempt (sleeping n) p = attempt (suc n) p
next_attempt _ p = p

unfoldable pub pause_over : Slot → Slot
unfolding next_attempt
pause_over p = next_attempt p.rebind p

-- The body of the loop of `ensure_listeners`.
unfoldable pub ensure_listener : Slot → Slot
unfolding start_listener stop_listener
ensure_listener p =
    if p.lockout && not (is_down p)
    then p
    else let p' = record p { lockout = false } in
      if is_proxy_needed p.machine.sm then start_listener p' else stop_listener p'

-- `_release_port_for_start`
unfoldable pub release_port_for_start : ℤ → Slot → Slot
unfolding stop_listener
release_port_for_start now p =
    let p' = record (stop_listener p) { lockout = true } in
    record p' { machine = transition now starting p'.machine }

-- `release_for_start` of a managed server, with the status that it returns.
unfoldable pub release_for_start : Bool → ℤ → String → Slot → Slot × String
unfolding release_port_for_start
release_for_start webhook now name p =
    if p.lockout || same (state_of p) starting
    then (p, "already_starting")
    else if not (is_down p)
    then (p, "not_stopped")
    else let p' = release_port_for_start now p in
      (
        if webhook then on_machine (emit (notify_started name "" crafty_console)) p' else p',
        "released",
      )

-- `reclaim_after_stop` of a managed server: `_start_listener` is spawned, and begins later.
unfoldable pub reclaim_after_stop : Bool → ℤ → String → Bool → String → Slot → Slot × String
reclaim_after_stop webhook now name crash source p =
    if is_down p
    then (p, "already_stopped")
    else let was_ours = same (state_of p) stopping in
      let p' = record p {
        machine = transition now (if crash then crashed else stopped) p.machine;
        lockout = false;
      } in
      let note = if crash then notify_crashed name else notify_stopped name (ℤ.pos 0) source in
      let p'' = if webhook && not was_ours then on_machine (emit note) p' else p' in
      (record p'' { spawned = suc p.spawned }, "reclaimed")

-- A spawned `_start_listener` begins.
unfoldable pub begin_spawned : Slot → Slot
unfolding start_listener
begin_spawned p =
    if ltb 0 p.spawned then start_listener (record p { spawned = p.spawned - 1 }) else p

-- `_handle_login` up to where the kicked player's connection closes, by whether the player may wake
-- the server.
unfoldable pub handle_login : Bool → String → Bool → String → String → Slot → Slot
handle_login webhook name false player peer p =
    let p' = on_machine (emit (disconnect p.machine.cfg.access.deny_message)) p in
    if webhook then on_machine (emit (notify_denied name player peer)) p' else p'
handle_login webhook name true player peer p =
    let p' = on_machine (emit (disconnect p.machine.cfg.kick_message)) p in
    record p' { closing = suc p.closing }

-- The connection is closed: up to the pause of 5 seconds.
wake : ℤ → Slot → Slot
unfolding release_port_for_start
wake now p =
    if is_down p then record (release_port_for_start now p) { pausing = suc p.pausing } else p

unfoldable pub login_closed : ℤ → Slot → Slot
unfolding wake
login_closed now p = if ltb 0 p.closing then wake now (record p { closing = p.closing - 1 }) else p

-- The pause is over: `start_server` is called.
unfoldable pub call_start : Slot → Slot
call_start p =
    if ltb 0 p.pausing
    then record p {
      machine = emit (api_start p.machine.cfg.crafty_server_id) p.machine;
      pausing = p.pausing - 1;
      calling = suc p.calling;
    }
    else p

-- `start_server` returns, or raises: then the start is rolled back.
start_result : Bool → ℤ → String → String → Bool → Slot → Slot
unfolding start_listener
start_result webhook now name player true p =
    if webhook then on_machine (emit (notify_started name player "")) p else p
start_result webhook now name player false p =
    start_listener (record p { machine = transition now stopped p.machine; lockout = false })

unfoldable pub start_answered : Bool → ℤ → String → String → Bool → Slot → Slot
unfolding start_result
start_answered webhook now name player answered p =
    if ltb 0 p.calling
    then start_result webhook now name player answered (record p { calling = p.calling - 1 })
    else p
