-- ===== src/Process/Sanity.antt =====
-- Every turn of every task, every signal, and whatever the proxies spawn keep all the machines sane.
use crafty_server_watcher.Common.{String, Bool, Option, none, some, List, [], ◌∷◌, map, ℤ}
use crafty_server_watcher.ServerState.{ServerStateMachine, Machines}
use crafty_server_watcher.ServerState.Invariant.{IsSane}
use crafty_server_watcher.Reload.Effect
use crafty_server_watcher.Reload.{Watcher, find}
use crafty_server_watcher.Reload.Effect.{reload_keeps_servers}
use crafty_server_watcher.Bedrock.{ensure_listener}
use crafty_server_watcher.IdleMonitor.{Watched, Reaction, settled, stop_requested, poll_one}
use crafty_server_watcher.IdleMonitor.Invariant.{after_stop-IsSane}
use crafty_server_watcher.IdleMonitor.Round.{Answer, replied}
use crafty_server_watcher.IdleMonitor.Round.Sanity.{IsSaneWatched, AllSane, poll_one-IsSane}
use crafty_server_watcher.Service.Sanity.{SlotSane, Holds, each-All, find-Holds, advance-SlotSane}
use mathlib.Core.Path.{subst}
use crafty_server_watcher.Process.Induction.{Keeps, run_process-Holds}
use crafty_server_watcher.Process.Sharing.{
  BerthSane, IsSaneProcess, at_key-All, AreSane, servers_changed, slots_changed, berths_changed,
  stop_all-SlotsSane, stop_berths-BerthsSane, ensure_listener-BerthSane, move_berth-BerthSane,
}
use crafty_server_watcher.Process.{Process}
use crafty_server_watcher.Process.Tasks.{
  Met, progress, poll_answered, stop_watched, named_machine, reloaded_machine, put_machines, Label,
  run_process,
}

module _ (webhook : Bool) where
  progress-IsSane : (x : Watched × Reaction) → IsSaneWatched x.0 → IsSaneWatched (progress x).0
  unfolding progress
  progress-IsSane (w, settled) h = h
  progress-IsSane (w, Reaction.raised) h = h
  progress-IsSane (w, stop_requested d) h = h

  poll_answered-IsSane :
      (name : String) (now : ℤ) (a : Answer) (w : Watched)
      → IsSaneWatched w
      → IsSaneWatched (poll_answered webhook name now a w).0
  unfolding poll_answered
  poll_answered-IsSane name now (replied stats) w h =
      progress-IsSane (poll_one webhook now name stats w)
        (poll_one-IsSane webhook now name stats w h)
  poll_answered-IsSane name now _ w h = h

  stop_watched-IsSane :
      (name : String) (d : ℤ) (met : Met) (w : Watched)
      → IsSaneWatched w
      → IsSaneWatched (stop_watched webhook name d met w)
  stop_watched-IsSane name d met w h = record {
    machine = after_stop-IsSane webhook name d met.stop_answered met.now w.machine h.machine;
    pending = h.pending;
  }

named_machine-AllSane :
    (servers : List (String × Watched))
    → AllSane servers
    → Effect.AllSane (map named_machine servers)
named_machine-AllSane [] h = tt
named_machine-AllSane ((name, w) ∷ rest) (q, h) = (q.machine, named_machine-AllSane rest h)

reloaded_machine-IsSane :
    (o : Option ServerStateMachine) (w : Watched)
    → Holds IsSane o
    → IsSaneWatched w
    → IsSaneWatched (reloaded_machine o w)
reloaded_machine-IsSane none w h q = q
reloaded_machine-IsSane (some sm) w h q = record { machine = h; pending = q.pending }

put_machines-AllSane :
    (machines : Machines) (servers : List (String × Watched))
    → Effect.AllSane machines
    → AllSane servers
    → AllSane (put_machines machines servers)
unfolding put_machines
put_machines-AllSane machines servers h =
    each-All IsSaneWatched IsSaneWatched _ servers
      (λ name w. reloaded_machine-IsSane (find name machines) w (find-Holds IsSane name machines h))

Keeps-AreSane : (webhook : Bool) (casefold : String → String) → Keeps webhook casefold AreSane
Keeps-AreSane webhook casefold = record {
  polled = λ name now answer w servers slots berths found h.
      let w' = (poll_answered webhook name now answer w).0 in
      let here : IsSaneWatched w =
        subst (Holds IsSaneWatched) found (find-Holds IsSaneWatched name servers h.of_servers) in
      let sane : IsSaneWatched w' = poll_answered-IsSane webhook name now answer w here in
      servers_changed servers slots berths h _
        (at_key-All IsSaneWatched name (λ _. w') servers (λ _ _. sane) h.of_servers);
  stopped = λ name d met servers slots berths h. servers_changed servers slots berths h _ (
      at_key-All IsSaneWatched name _ servers (stop_watched-IsSane webhook name d met)
        h.of_servers);
  moved = λ name m servers slots berths h.
      slots_changed servers slots berths h _
        (at_key-All SlotSane name _ slots (advance-SlotSane webhook name m) h.of_slots);
  slots_stopped = λ servers slots berths h.
      slots_changed servers slots berths h _ (stop_all-SlotsSane slots h.of_slots);
  ensured = λ name servers slots berths h.
      berths_changed servers slots berths h _
        (at_key-All BerthSane name ensure_listener berths ensure_listener-BerthSane h.of_berths);
  berth_moved = λ name m servers slots berths h.
      berths_changed servers slots berths h _
        (at_key-All BerthSane name _ berths (move_berth-BerthSane m) h.of_berths);
  berths_stopped = λ servers slots berths h.
      berths_changed servers slots berths h _ (stop_berths-BerthsSane berths h.of_berths);
  reloaded = λ new cfg access servers slots berths h.
      let before : Watcher = record {
        machines = map named_machine servers;
        polling = cfg;
        access = access;
      } in
      let (_, sane) =
        reload_keeps_servers casefold new before (named_machine-AllSane servers h.of_servers) in
      servers_changed servers slots berths h _ (put_machines-AllSane _ servers sane h.of_servers);
}

pub run_process-IsSane :
    (webhook : Bool) (casefold : String → String) (ls : List Label) (p : Process)
    → IsSaneProcess p
    → IsSaneProcess (run_process webhook casefold ls p)
run_process-IsSane webhook casefold ls p h =
    run_process-Holds webhook casefold AreSane (Keeps-AreSane webhook casefold) ls p h
