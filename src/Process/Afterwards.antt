-- ===== src/Process/Afterwards.antt =====
-- crafty_server_watcher/__main__.py: the monitor is in `ensure_listeners` when the proxy has closed its listeners.
use crafty_server_watcher.Common.{◌≡◌, refl, String, Bool, true, [], ◌∷◌, eq_iff, arith}
use crafty_server_watcher.State.{stopped}
use crafty_server_watcher.ServerState.{is_proxy_needed}
use crafty_server_watcher.Proxy.{
  Slot, resting, stop_listener, ensure_listener, start_listener, attempt, bind_answered,
}
use crafty_server_watcher.Proxy.Schedule.{ensure, bind_answer, advance}
use crafty_server_watcher.Managers.{stop_all}
use crafty_server_watcher.Process.{
  serving, ensuring, monitor_end, waiting, ended, reloader_end, Process, is_over, at_key, set_slots,
}
use crafty_server_watcher.Process.Tasks.{
  Met, monitor_at, proxy_at, monitor_turn, proxy_turn, slot_move, take_turn, step_process,
  run_process,
}

bound_again :
    (webhook : Bool) (name : String) (s : Slot)
    → s.machine.state ≡ stopped
    → s.rebind ≡ resting
    → (advance webhook name
        (bind_answer true)
        (advance webhook name ensure (stop_listener s))).listening
      ≡ true
unfolding advance ensure_listener bind_answered is_proxy_needed stop_listener start_listener attempt
bound_again webhook name s state rest = ground arith

at_key_self {ℓ} :
    {V : Type ℓ} (name : String) (f : V → V) (v : V)
    → at_key name f ((name, v) ∷ []) ≡ (name, f v) ∷ []
unfolding at_key
at_key_self name f v = rw ((eq_iff name name).1 refl) refl

-- With the health server at work: if the shutdown comes when the monitor still has to ensure the listener of the one server, which is STOPPED,
-- and the proxy closes its listeners before that, then the port is bound again, the proxy and the monitor
-- return, and the listener stays.
listener_outlives_shutdown :
    (webhook : Bool) (casefold : String → String) (name : String) (s : Slot) (met met' : Met)
    (base : Process)
    → s.machine.state ≡ stopped
    → s.rebind ≡ resting
    → let p : Process = record base {
      shutdown = true;
      monitor = ensuring (name ∷ []);
      proxy = waiting;
      reloader = reloader_end;
      health = serving;
      slots = (name, s) ∷ [];
    } in
      let q =
        run_process webhook casefold
          (proxy_turn
            ∷ monitor_turn met
            ∷ slot_move name (bind_answer true)
            ∷ monitor_turn met'
            ∷ [])
          p in
      (q.proxy ≡ ended)
      × (q.monitor ≡ monitor_end)
      × ((t : Slot) × (q.slots ≡ (name, t) ∷ []) × (t.listening ≡ true))
unfolding run_process step_process take_turn monitor_at proxy_at set_slots stop_all is_over
listener_outlives_shutdown webhook casefold name s met met' base state rest =
    let ensured = advance webhook name ensure (stop_listener s) in
    let bound = advance webhook name (bind_answer true) ensured in
    (
      refl,
      refl,
      (
        bound,
        rw (at_key_self name (advance webhook name ensure) (stop_listener s))
            (at_key_self name (advance webhook name (bind_answer true)) ensured),
        bound_again webhook name s state rest,
      ),
    )
