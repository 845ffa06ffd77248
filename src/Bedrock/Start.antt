-- ===== src/Bedrock/Start.antt =====
-- The port while a Bedrock server is started.
use crafty_server_watcher.Common.{◌≡◌, refl, ℕ, suc, ℤ, Bool, true, false, arith}
use crafty_server_watcher.State.{starting, stopped}
use crafty_server_watcher.ServerState.{transition, is_proxy_needed}
use crafty_server_watcher.Bedrock.{
  Berth, is_asleep, ensure_listener, bind_answered, connection_requested, trigger_start, call_start,
  start_answered,
}

-- A connection request to a sleeping server leads, when no other task comes between, to a start with
-- the port free: on success the server is STARTING and locked out of being bound, and on failure it is
-- still asleep, not locked out, and its port is being bound again.
pub wake_frees_port :
    (now : ℤ) (answered : Bool) (b : Berth)
    → is_asleep b ≡ true
    → b.lockout ≡ false
    → let q = call_start (trigger_start (connection_requested b)) in
      let r = start_answered now answered q in
      (q.listening ≡ false)
      × (r.listening ≡ false)
      × (r.lockout ≡ answered)
      × (answered ≡ true → r.machine.state ≡ starting)
      × (answered ≡ false → (is_asleep r ≡ true) × (r.binding ≡ suc b.binding))
unfolding connection_requested trigger_start call_start start_answered transition
wake_frees_port now true b s o = ground arith
wake_frees_port now false b s o = ground arith

begun :
    (b : Berth)
    → b.machine.state ≡ stopped
    → b.lockout ≡ false
    → trigger_start (connection_requested b)
      ≡ record b { listening = false; lockout = true; pausing = suc b.pausing }
unfolding connection_requested trigger_start
begun b s o = ground arith

rebound :
    (b : Berth)
    → b.machine.state ≡ stopped
    → b.listening ≡ false
    → bind_answered true (ensure_listener b) ≡ record b { listening = true; lockout = false }
unfolding ensure_listener bind_answered is_proxy_needed
rebound b s l = ground arith

answered_start :
    (now : ℤ) (n : ℕ) (b : Berth)
    → b.machine.state ≡ stopped
    → b.pausing ≡ suc n
    → let r = start_answered now true (call_start b) in
      (r.machine.state ≡ starting) × (r.listening ≡ b.listening)
unfolding call_start start_answered transition
answered_start now n b s p = ground arith

-- A round of `ensure_listeners` in the pause of a start clears the lockout of the server, which is still
-- STOPPED, and binds the port again: the start is then requested with the proxy on the port.
pub pause_loses_port :
    (now : ℤ) (b : Berth)
    → b.machine.state ≡ stopped
    → b.lockout ≡ false
    → let q = bind_answered true (ensure_listener (trigger_start (connection_requested b))) in
      let r = start_answered now true (call_start q) in
      (q.lockout ≡ false) × (r.machine.state ≡ starting) × (r.listening ≡ true)
pause_loses_port now b s o =
    let paused = record b { listening = false; lockout = true; pausing = suc b.pausing } in
    let back = record paused { listening = true; lockout = false } in
    let (state, port) = answered_start now b.pausing back s refl in
    rw (begun b s o) (rw (rebound paused s refl) (refl, state, port))
