-- ===== src/Service/Sanity.antt =====
-- The tasks of crafty_server_watcher/idle_monitor.py and proxy_listener.py keep the machines sane together.
use crafty_server_watcher.Common.{
  String, Bool, false, Option, none, some, List, [], ◌∷◌, if_rule, All, str_eq, arith,
}
use crafty_server_watcher.State.{starting, stopped, crashed}
use crafty_server_watcher.ServerState.Invariant.{IsSane, transition-IsSane}
use crafty_server_watcher.Reload.{find}
use crafty_server_watcher.Proxy.{
  Slot, ensure_listener, release_for_start, reclaim_after_stop, handle_login, login_closed,
  call_start, start_answered, bind_answered, pause_over, begin_spawned,
}
use crafty_server_watcher.Proxy.Schedule.{
  Move, poll, stop_answered, ensure, start_event, stop_event, closed, start_answer, advance, polled,
}
use crafty_server_watcher.Health.{Slots}
use crafty_server_watcher.Managers.{ensure_listeners}
use crafty_server_watcher.IdleMonitor.{Watched}
use crafty_server_watcher.IdleMonitor.Invariant.{after_stop-IsSane}
use crafty_server_watcher.IdleMonitor.Round.{poll_all}
use crafty_server_watcher.IdleMonitor.Round.Sanity.{
  IsSaneWatched, AllSane, poll_one-IsSane, poll_all-IsSane,
}
use crafty_server_watcher.Service.{
  each, Service, Turn, slot_machine, to_slots, watched_machine, to_servers, move_slot, move_slots,
  turn, turns,
}

abbrev pub SlotSane : Slot → Type 0
SlotSane p = IsSane p.machine.sm

abbrev pub SlotsSane : Slots → Type 0
SlotsSane = All (λ (s : String × Slot). SlotSane s.1)

pub record IsSaneService (s : Service) : Type 0 where
  pub servers : AllSane s.servers
  pub slots : SlotsSane s.slots

module _ (webhook : Bool) (name : String) where
  pub advance-SlotSane : (m : Move) (p : Slot) → SlotSane p → SlotSane (advance webhook name m p)
  unfolding advance polled ensure_listener release_for_start reclaim_after_stop handle_login
      login_closed call_start start_answered bind_answered pause_over begin_spawned
  advance-SlotSane (poll now stats) p h =
      (poll_one-IsSane webhook now name stats (record { machine = p.machine; pending = none })
        (record { machine = h; pending = tt })).machine
  advance-SlotSane (stop_answered d answered now) p h =
      after_stop-IsSane webhook name d answered now p.machine h
  advance-SlotSane (start_event now) p h = ground (arith, transition-IsSane now starting p.machine)
  advance-SlotSane (stop_event now crash source) p h =
      ground
        (arith, transition-IsSane now crashed p.machine, transition-IsSane now stopped p.machine)
  advance-SlotSane (closed now) p h = ground (arith, transition-IsSane now starting p.machine)
  advance-SlotSane (start_answer now player answered) p h =
      ground (arith, transition-IsSane now stopped p.machine)
  advance-SlotSane _ p h = ground arith

-- What a dictionary holds for a name has what all its values have.
abbrev pub Holds {ℓ κ} : {V : Type ℓ} → (V → Type κ) → Option V → Type κ
Holds P none = Unit {κ}
Holds P (some v) = P v

pub find-Holds {ℓ κ} :
    {V : Type ℓ} (P : V → Type κ) (name : String) (entries : List (String × V))
    → All (λ (e : String × V). P e.1) entries
    → Holds P (find name entries)
unfolding find
find-Holds P name [] h = tt
find-Holds P name ((n, v) ∷ rest) (q, h) =
    if_rule (Holds P) (str_eq n name) (some v) (find name rest) q (find-Holds P name rest h)

pub each-All {ℓ κ ι} :
    {V : Type ℓ} {W : Type κ} (P : V → Type ι) (Q : W → Type ι) (f : String → V → W)
    (entries : List (String × V))
    → ((name : String) (v : V) → P v → Q (f name v))
    → All (λ (e : String × V). P e.1) entries
    → All (λ (e : String × W). Q e.1) (each f entries)
unfolding each
each-All P Q f [] keep h = tt
each-All P Q f ((name, v) ∷ rest) keep (q, h) = (keep name v q, each-All P Q f rest keep h)

slot_machine-SlotSane :
    (w : Option Watched) (p : Slot)
    → Holds IsSaneWatched w
    → SlotSane p
    → SlotSane (slot_machine w p)
slot_machine-SlotSane none p h q = q
slot_machine-SlotSane (some w) p h q = h.machine

pub to_slots-SlotsSane :
    (servers : List (String × Watched)) (slots : Slots)
    → AllSane servers
    → SlotsSane slots
    → SlotsSane (to_slots servers slots)
unfolding to_slots
to_slots-SlotsSane servers slots h = each-All SlotSane SlotSane _ slots (λ name p.
    slot_machine-SlotSane (find name servers) p (find-Holds IsSaneWatched name servers h))

watched_machine-IsSane :
    (p : Option Slot) (w : Watched)
    → Holds SlotSane p
    → IsSaneWatched w
    → IsSaneWatched (watched_machine p w)
watched_machine-IsSane none w h q = q
watched_machine-IsSane (some p) w h q = record { machine = h; pending = q.pending }

pub to_servers-AllSane :
    (slots : Slots) (servers : List (String × Watched))
    → SlotsSane slots
    → AllSane servers
    → AllSane (to_servers slots servers)
unfolding to_servers
to_servers-AllSane slots servers h =
    each-All IsSaneWatched IsSaneWatched _ servers
      (λ name w. watched_machine-IsSane (find name slots) w (find-Holds SlotSane name slots h))

ensure_listeners-SlotsSane : (slots : Slots) → SlotsSane slots → SlotsSane (ensure_listeners slots)
unfolding ensure_listeners advance
ensure_listeners-SlotsSane [] h = tt
ensure_listeners-SlotsSane ((name, p) ∷ rest) (h, hs) =
    (advance-SlotSane false name ensure p h, ensure_listeners-SlotsSane rest hs)

module _ (webhook : Bool) where
  move_slot-SlotsSane :
      (name : String) (m : Move) (slots : Slots)
      → SlotsSane slots
      → SlotsSane (move_slot webhook name m slots)
  unfolding move_slot
  move_slot-SlotsSane name m [] h = tt
  move_slot-SlotsSane name m ((n, p) ∷ rest) (h, hs) =
      if_rule SlotsSane (str_eq n name) ((n, advance webhook n m p) ∷ rest)
        ((n, p) ∷ move_slot webhook name m rest) (advance-SlotSane webhook n m p h, hs)
        (h, move_slot-SlotsSane name m rest hs)

  move_slots-SlotsSane :
      (moves : List (String × Move)) (slots : Slots)
      → SlotsSane slots
      → SlotsSane (move_slots webhook moves slots)
  unfolding move_slots
  move_slots-SlotsSane [] slots h = h
  move_slots-SlotsSane ((name, m) ∷ rest) slots h =
      move_slots-SlotsSane rest (move_slot webhook name m slots)
        (move_slot-SlotsSane name m slots h)

  turn-IsSaneService : (t : Turn) (s : Service) → IsSaneService s → IsSaneService (turn webhook t s)
  unfolding turn
  turn-IsSaneService t s h =
      let (servers, failures) = poll_all webhook t.reply s.servers s.failures in
      let polled : AllSane servers =
        poll_all-IsSane webhook t.reply s.servers s.failures h.servers in
      let moved : SlotsSane
          (move_slots webhook t.moves (ensure_listeners (to_slots servers s.slots))) =
        move_slots-SlotsSane t.moves (ensure_listeners (to_slots servers s.slots)) (
          ensure_listeners-SlotsSane (to_slots servers s.slots)
            (to_slots-SlotsSane servers s.slots polled h.slots)) in
      record { servers = to_servers-AllSane _ servers moved polled; slots = moved }

  pub turns-IsSaneService :
      (all : List Turn) (s : Service) → IsSaneService s → IsSaneService (turns webhook all s)
  unfolding turns
  turns-IsSaneService [] s h = h
  turns-IsSaneService (t ∷ rest) s h =
      turns-IsSaneService rest (turn webhook t s) (turn-IsSaneService t s h)
