-- ===== src/Process/Tasks.antt =====
-- The turns of the tasks that crafty_server_watcher/__main__.py gathers, and what else moves the state between
-- them: signals, and the tasks that the two proxies spawn.
use crafty_server_watcher.Common.{
  not, String, Bool, true, false, Option, none, some, List, [], ◌∷◌, map, if◌then◌else◌, ℤ,
}
use crafty_server_watcher.Config.{AppConfig}
use crafty_server_watcher.ServerState.{ServerStateMachine, Machines}
use crafty_server_watcher.Loading.{Loading, loaded, config_error}
use crafty_server_watcher.Reload.{find, apply}
use crafty_server_watcher.Bedrock.{
  Berth, ensure_listener, connection_requested, trigger_start, call_start, start_answered,
  bind_answered,
}
use crafty_server_watcher.Proxy.Schedule.{Move, ensure, advance}
use crafty_server_watcher.Managers.{stop_all, stop_berths}
use crafty_server_watcher.IdleMonitor.{
  Watched, Reaction, settled, stop_requested, poll_one, after_stop,
}
use crafty_server_watcher.IdleMonitor.Round.{
  Answer, replied, unreachable, api_error, failed, Outcome, done, connection_error, other_error,
  crafty_error, next_failures, is_forbidden,
}
use crafty_server_watcher.Service.{each}
use crafty_server_watcher.Process.{
  Monitor, polling, ensuring, asking, monitor_pause, monitor_end, Task, waiting, ended, Server,
  to_bind, serving, server_end, server_failed, Reloader, unbegun, attentive, reloader_end,
  reloader_failed, Loop, ensuring_berths, berth_pause, berth_end, Process, is_over, at_key, keys,
  set_servers, set_slots, set_berths,
}

-- What a turn of the monitor meets: the clock, how `get_server_stats` ends, and whether `stop_server` returns.
pub record Met : Type 0 where
  pub now : ℤ
  pub answer : Answer
  pub stop_answered : Bool

-- `_poll_one` up to its end, or up to the call of `stop_server` with the idle time to report.
pub data Progress : Type 0 where
  finished : Outcome → Progress
  asks : ℤ → Progress

unfoldable pub progress : Watched × Reaction → Watched × Progress
progress (w, settled) = (w, finished done)
progress (w, Reaction.raised) = (w, finished other_error)
progress (w, stop_requested d) = (w, asks d)

unfoldable pub poll_answered : Bool → String → ℤ → Answer → Watched → Watched × Progress
poll_answered webhook name now (replied stats) w = progress (poll_one webhook now name stats w)
poll_answered webhook name now unreachable w = (w, finished connection_error)
poll_answered webhook name now (api_error status) w = (w, finished (crafty_error status))
poll_answered webhook name now failed w = (w, finished other_error)

-- The handlers of `_poll_all`: a status of 403 ends the round.
unfoldable pub after_poll : String → List String → Progress → Process → Process
after_poll name rest (asks d) p = record p { monitor = asking name d rest }
after_poll name rest (finished outcome) p = record p {
  monitor = polling (if is_forbidden outcome then [] else rest);
  failures = next_failures outcome p.failures;
}

unfoldable pub poll_found : Bool → String → List String → Met → Option Watched → Process → Process
unfolding poll_answered
poll_found webhook name rest met none p = record p { monitor = polling rest }
poll_found webhook name rest met (some w) p =
    let (w', progress) = poll_answered webhook name met.now met.answer w in
    after_poll name rest progress (set_servers (at_key name (λ _. w') p.servers) p)

abbrev pub stop_watched : Bool → String → ℤ → Met → Watched → Watched
stop_watched webhook name d met w = record w {
  machine = after_stop webhook name d met.stop_answered met.now w.machine;
}

unfoldable pub monitor_at : Bool → Met → Monitor → Process → Process
unfolding poll_found
monitor_at webhook met (polling []) p = record p { monitor = ensuring (keys p.slots) }
monitor_at webhook met (polling (name ∷ rest)) p =
    poll_found webhook name rest met (find name p.servers) p
monitor_at webhook met (asking name d rest) p =
    record (set_servers (at_key name (stop_watched webhook name d met) p.servers) p) {
      monitor = polling rest;
      failures = 0;
    }
monitor_at webhook met (ensuring (name ∷ rest)) p =
    record (set_slots (at_key name (advance webhook name ensure) p.slots) p) {
      monitor = ensuring rest;
    }
monitor_at webhook met (ensuring []) p = record p {
  monitor = if p.shutdown then monitor_end else monitor_pause;
}
monitor_at webhook met monitor_pause p = record p {
  monitor = if p.shutdown then monitor_end else polling (keys p.servers);
}
monitor_at webhook met monitor_end p = p

-- `ProxyManager.run`
unfoldable pub proxy_at : Task → Process → Process
proxy_at waiting p =
    if p.shutdown then record (set_slots (stop_all p.slots) p) { proxy = ended } else p
proxy_at ended p = p

-- `HealthServer.run`, by whether its port can be bound: `asyncio.start_server` raises where it cannot.
unfoldable pub health_at : Bool → Server → Process → Process
health_at bound to_bind p = record p {
  health = if not bound then server_failed else if p.shutdown then server_end else serving;
}
health_at bound serving p = if p.shutdown then record p { health = server_end } else p
health_at bound server_end p = p
health_at bound server_failed p = p

-- `BedrockProxyManager.run`
unfoldable pub bedrock_at : Loop → Process → Process
bedrock_at (ensuring_berths (name ∷ rest)) p =
    record (set_berths (at_key name ensure_listener p.berths) p) { bedrock = ensuring_berths rest }
bedrock_at (ensuring_berths []) p = record p { bedrock = berth_pause }
bedrock_at berth_pause p =
    if p.shutdown
    then record (set_berths (stop_berths p.berths) p) { bedrock = berth_end }
    else record p { bedrock = ensuring_berths (keys p.berths) }
bedrock_at berth_end p = p

-- The machines of the process, as a reload finds and leaves them.
abbrev pub named_machine : String × Watched → String × ServerStateMachine
named_machine (name, w) = (name, w.machine.sm)

abbrev pub reloaded_machine : Option ServerStateMachine → Watched → Watched
reloaded_machine none w = w
reloaded_machine (some sm) w = record w { machine = record w.machine { sm = sm } }

unfoldable pub put_machines : Machines → List (String × Watched) → List (String × Watched)
unfolding each
put_machines machines servers = each (λ name. reloaded_machine (find name machines)) servers

unfoldable pub reload_process : (String → String) → AppConfig → Process → Process
reload_process casefold new p =
    let w = apply casefold new (record {
      machines = map named_machine p.servers;
      polling = p.poll_cfg;
      access = p.access;
    }) in
    record (set_servers (put_machines w.machines p.servers) p) {
      poll_cfg = w.polling;
      access = w.access;
    }

-- What follows the wait of `_reload_watcher` when the event of a reload is set, back to its next wait.
unfoldable pub reload_with : (String → String) → Loading AppConfig → Process → Process
reload_with casefold (loaded new) p = record (reload_process casefold new p) { reload = false }
reload_with casefold config_error p = record p { reload = false }
reload_with casefold Loading.raised p = record p { reloader = reloader_failed }

unfoldable pub reloader_at : (String → String) → Loading AppConfig → Reloader → Process → Process
reloader_at casefold file unbegun p =
    if p.shutdown
    then record p { reloader = reloader_end }
    else record p { reload = false; reloader = attentive }
reloader_at casefold file attentive p =
    if p.shutdown
    then record p { reloader = reloader_end }
    else if p.reload
    then reload_with casefold file p
    else p
reloader_at casefold file reloader_end p = p
reloader_at casefold file reloader_failed p = p

-- The parts of the tasks that work on one berth.
pub data BerthMove : Type 0 where
  connect trigger call : BerthMove
  start_reply : ℤ → Bool → BerthMove
  bind_reply : Bool → BerthMove

unfoldable pub move_berth : BerthMove → Berth → Berth
move_berth connect b = connection_requested b
move_berth trigger b = trigger_start b
move_berth call b = call_start b
move_berth (start_reply now answered) b = start_answered now answered b
move_berth (bind_reply bound) b = bind_answered bound b

-- What may come next: `_request_shutdown` and `_request_reload` by their signals, a turn of a task, or a
-- part of a task that a proxy spawned.
pub data Label : Type 0 where
  sigterm sighup : Label
  monitor_turn : Met → Label
  proxy_turn bedrock_turn : Label
  health_turn : Bool → Label
  reloader_turn : Loading AppConfig → Label
  slot_move : String → Move → Label
  berth_move : String → BerthMove → Label

module _ (webhook : Bool) (casefold : String → String) where
  unfoldable pub take_turn : Label → Process → Process
  take_turn sigterm p = record p { shutdown = true }
  take_turn sighup p = record p { reload = true }
  take_turn (monitor_turn met) p = monitor_at webhook met p.monitor p
  take_turn proxy_turn p = proxy_at p.proxy p
  take_turn (health_turn bound) p = health_at bound p.health p
  take_turn bedrock_turn p = bedrock_at p.bedrock p
  take_turn (reloader_turn file) p = reloader_at casefold file p.reloader p
  take_turn (slot_move name m) p = set_slots (at_key name (advance webhook name m) p.slots) p
  take_turn (berth_move name m) p = set_berths (at_key name (move_berth m) p.berths) p

  unfoldable pub step_process : Label → Process → Process
  step_process l p = if is_over p then p else take_turn l p

  unfoldable pub run_process : List Label → Process → Process
  run_process [] p = p
  run_process (l ∷ rest) p = run_process rest (step_process l p)
