-- ===== src/Examples/Running.antt =====
-- The tasks of the watcher, in some order of their turns.
use crafty_server_watcher.Common.{
  pos, ◌≡◌, refl, String, true, false, none, List, [], ◌∷◌, arith, All, count_if,
}
use crafty_server_watcher.State.{stopped}
use crafty_server_watcher.Reload.{find}
use crafty_server_watcher.Loading.{loaded}
use crafty_server_watcher.StateStore.{returned}
use crafty_server_watcher.ServerState.{ServerStateMachine}
use crafty_server_watcher.Startup.{Components}
use crafty_server_watcher.Proxy.{Slot}
use crafty_server_watcher.Proxy.Schedule.{login}
use crafty_server_watcher.IdleMonitor.{Watched}
use crafty_server_watcher.IdleMonitor.Round.{replied, unreachable}
use crafty_server_watcher.Service.{each, watched_from, slots_from, pending_restore, new_slot}
use crafty_server_watcher.Process.{Process, attentive, is_over, set_servers, set_slots, at_key}
use crafty_server_watcher.Process.Tasks.{
  Met, Label, sighup, monitor_turn, proxy_turn, health_turn, bedrock_turn, reloader_turn, slot_move,
  take_turn, monitor_at, poll_found, poll_answered, after_poll, step_process, run_process,
}
use crafty_server_watcher.Process.Start.{
  begin_process, start_process, when_restored, berths_from, access_from,
}
use crafty_server_watcher.Process.Ending.{shutdown_ends_watcher}
use crafty_server_watcher.Process.Reloading.{signal_reaches_machines}
use crafty_server_watcher.Process.Early.{early_signal_is_lost}
use crafty_server_watcher.Examples.Fixture.{at, survival, fresh, idle_machine, up_empty}
use crafty_server_watcher.Examples.Loading.{configuration}

abbrev met : Met
met = record { now = at 20; answer = replied up_empty; stop_answered = true }

abbrev outage : Met
outage = record { now = at 20; answer = unreachable; stop_answered = true }

abbrev pocket : ServerStateMachine
pocket = record idle_machine {
  cfg = record survival {
    name = "pocket";
    crafty_server_id = "33-44";
    listen_port = pos 19132;
    edition = "bedrock";
  };
}

-- A Java and a Bedrock server.
abbrev both : Components
both = record {
  machines = ("survival", idle_machine) ∷ ("pocket", pocket) ∷ [];
  java = ("survival", idle_machine) ∷ [];
  bedrock = ("pocket", pocket) ∷ [];
  unknown_ids = [];
  webhook = none;
  state_file = none;
  health = none;
  events = record { enabled = false; path = "/events/crafty"; token = "" };
  polling = record {
    interval_seconds = pos 30;
    api_retry_delay_seconds = pos 10;
    api_max_retries = pos 3;
  };
}

abbrev begun : Process
unfolding begin_process watched_from slots_from berths_from access_from each find
begun = begin_process (λ s. s) both false false []

begins : start_process (λ s. s) (λ s. none) (at 10) (at 9060) none both false false ≡ returned begun
unfolding start_process when_restored pending_restore begun
begins = refl

-- The turns that a process needs when its shutdown is requested as it begins.
abbrev last_turns : List Label
last_turns =
    monitor_turn met
    ∷ proxy_turn
    ∷ monitor_turn met
    ∷ reloader_turn (loaded configuration)
    ∷ slot_move "survival" (login true "steve" "10.0.0.9")
    ∷ monitor_turn met
    ∷ monitor_turn met
    ∷ monitor_turn met
    ∷ health_turn true
    ∷ monitor_turn met
    ∷ monitor_turn met
    ∷ bedrock_turn
    ∷ []

abbrev told_to_end : Process
told_to_end = record begun { shutdown = true }

shutdown_ends_watcher_example : is_over (run_process true (λ s. s) last_turns told_to_end) ≡ true
unfolding count_if begun
shutdown_ends_watcher_example =
    shutdown_ends_watcher true (λ s. s) last_turns told_to_end refl
      (record {
        monitor = omega arith;
        proxy = omega arith;
        reloader = omega arith;
        health = omega arith;
        bedrock = omega arith;
      })

abbrev reloading : Process
reloading = record begun { reloader = attentive }

signal_reaches_machines_example :
    let q =
      run_process true
        (λ s. s)
        (sighup ∷ monitor_turn outage ∷ slot_move "survival" (login true "steve" "10.0.0.9") ∷ [])
        reloading in
    let r = step_process true (λ s. s) (reloader_turn (loaded configuration)) q in
    (r.poll_cfg ≡ configuration.polling)
    × (r.reloader ≡ attentive)
    × (r.reload ≡ false)
    × All (λ (e : String × Watched). e.1.machine.sm.cooldowns ≡ configuration.cooldowns) r.servers
unfolding count_if run_process step_process is_over take_turn monitor_at poll_found poll_answered
    after_poll set_servers set_slots at_key begun
signal_reaches_machines_example =
    signal_reaches_machines true (λ s. s)
      (monitor_turn outage ∷ slot_move "survival" (login true "steve" "10.0.0.9") ∷ [])
      configuration reloading refl refl refl refl

early_signal_is_lost_example :
    let q =
      run_process true
        (λ s. s)
        (sighup
          ∷ reloader_turn (loaded configuration)
          ∷ monitor_turn met
          ∷ reloader_turn (loaded configuration)
          ∷ [])
        begun in
    (q.poll_cfg ≡ begun.poll_cfg) × (q.access ≡ begun.access)
unfolding count_if begun
early_signal_is_lost_example =
    early_signal_is_lost true (λ s. s) (loaded configuration)
      (monitor_turn met ∷ reloader_turn (loaded configuration) ∷ []) begun refl refl

abbrev asleep : Slot
asleep = new_slot (record fresh { state = stopped })
