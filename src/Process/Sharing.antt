-- ===== src/Process/Sharing.antt =====
-- What one holder of a machine of crafty_server_watcher/__main__.py does to it, the others see; and the moves of a
-- Bedrock server keep its machine sane.
use crafty_server_watcher.Common.{
  String, Option, none, some, List, [], ◌∷◌, if_rule, All, str_eq, arith,
}
use crafty_server_watcher.State.{starting}
use crafty_server_watcher.ServerState.Invariant.{IsSane, transition-IsSane}
use crafty_server_watcher.Reload.{find}
use crafty_server_watcher.Bedrock.{
  Berth, ensure_listener, connection_requested, trigger_start, call_start, start_answered,
  bind_answered, stop_listener,
}
use crafty_server_watcher.Proxy.{Slot}
use crafty_server_watcher.Proxy
use crafty_server_watcher.Health.{Slots}
use crafty_server_watcher.Managers.{Berths, stop_all, stop_berths}
use crafty_server_watcher.IdleMonitor.{Watched}
use crafty_server_watcher.IdleMonitor.Round.Sanity.{IsSaneWatched, AllSane}
use crafty_server_watcher.Service.Sanity.{
  SlotsSane, Holds, each-All, find-Holds, to_slots-SlotsSane, to_servers-AllSane,
}
use crafty_server_watcher.Service.{to_slots, to_servers}
use crafty_server_watcher.Process.{
  Process, at_key, berth_machine, to_berths, berthed_machine, from_berths,
}
use crafty_server_watcher.Process.Tasks.{BerthMove, start_reply, move_berth}

abbrev pub BerthSane : Berth → Type 0
BerthSane b = IsSane b.machine.sm

abbrev pub BerthsSane : Berths → Type 0
BerthsSane = All (λ (s : String × Berth). BerthSane s.1)

-- All the machines are sane, as every holder of one sees it.
pub record AreSane (servers : List (String × Watched)) (slots : Slots) (berths : Berths)
    : Type 0 where
  pub of_servers : AllSane servers
  pub of_slots : SlotsSane slots
  pub of_berths : BerthsSane berths

abbrev pub IsSaneProcess : Process → Type 0
IsSaneProcess p = AreSane p.servers p.slots p.berths

pub at_key-All {ℓ κ} :
    {V : Type ℓ} (P : V → Type κ) (name : String) (f : V → V) (entries : List (String × V))
    → ((v : V) → P v → P (f v))
    → All (λ (e : String × V). P e.1) entries
    → All (λ (e : String × V). P e.1) (at_key name f entries)
unfolding at_key
at_key-All P name f [] keep h = tt
at_key-All P name f ((n, v) ∷ rest) keep (q, h) =
    if_rule (All (λ e. P e.1)) (str_eq n name) ((n, f v) ∷ rest) ((n, v) ∷ at_key name f rest)
      (keep v q, h) (q, at_key-All P name f rest keep h)

berth_machine-BerthSane :
    (w : Option Watched) (b : Berth)
    → Holds IsSaneWatched w
    → BerthSane b
    → BerthSane (berth_machine w b)
berth_machine-BerthSane none b h q = q
berth_machine-BerthSane (some w) b h q = h.machine

to_berths-BerthsSane :
    (servers : List (String × Watched)) (berths : Berths)
    → AllSane servers
    → BerthsSane berths
    → BerthsSane (to_berths servers berths)
unfolding to_berths
to_berths-BerthsSane servers berths h = each-All BerthSane BerthSane _ berths (λ name b.
    berth_machine-BerthSane (find name servers) b (find-Holds IsSaneWatched name servers h))

berthed_machine-IsSane :
    (b : Option Berth) (w : Watched)
    → Holds BerthSane b
    → IsSaneWatched w
    → IsSaneWatched (berthed_machine b w)
berthed_machine-IsSane none w h q = q
berthed_machine-IsSane (some b) w h q = record { machine = h; pending = q.pending }

from_berths-AllSane :
    (berths : Berths) (servers : List (String × Watched))
    → BerthsSane berths
    → AllSane servers
    → AllSane (from_berths berths servers)
unfolding from_berths
from_berths-AllSane berths servers h =
    each-All IsSaneWatched IsSaneWatched _ servers
      (λ name w. berthed_machine-IsSane (find name berths) w (find-Holds BerthSane name berths h))

module _ (servers : List (String × Watched)) (slots : Slots) (berths : Berths)
    (h : AreSane servers slots berths) where
  pub servers_changed :
      (servers' : List (String × Watched))
      → AllSane servers'
      → AreSane servers' (to_slots servers' slots) (to_berths servers' berths)
  servers_changed servers' q = record {
    of_servers = q;
    of_slots = to_slots-SlotsSane servers' slots q h.of_slots;
    of_berths = to_berths-BerthsSane servers' berths q h.of_berths;
  }

  pub slots_changed :
      (slots' : Slots) → SlotsSane slots' → AreSane (to_servers slots' servers) slots' berths
  slots_changed slots' q = record {
    of_servers = to_servers-AllSane slots' servers q h.of_servers;
    of_slots = q;
    of_berths = h.of_berths;
  }

  pub berths_changed :
      (berths' : Berths) → BerthsSane berths' → AreSane (from_berths berths' servers) slots berths'
  berths_changed berths' q = record {
    of_servers = from_berths-AllSane berths' servers q h.of_servers;
    of_slots = h.of_slots;
    of_berths = q;
  }

pub stop_all-SlotsSane : (slots : Slots) → SlotsSane slots → SlotsSane (stop_all slots)
unfolding stop_all Proxy.stop_listener
stop_all-SlotsSane [] h = tt
stop_all-SlotsSane ((name, p) ∷ rest) (q, h) = (q, stop_all-SlotsSane rest h)

pub stop_berths-BerthsSane : (berths : Berths) → BerthsSane berths → BerthsSane (stop_berths berths)
unfolding stop_berths stop_listener
stop_berths-BerthsSane [] h = tt
stop_berths-BerthsSane ((name, b) ∷ rest) (q, h) = (q, stop_berths-BerthsSane rest h)

pub ensure_listener-BerthSane : (b : Berth) → BerthSane b → BerthSane (ensure_listener b)
unfolding ensure_listener
ensure_listener-BerthSane b h = ground arith

pub move_berth-BerthSane : (m : BerthMove) (b : Berth) → BerthSane b → BerthSane (move_berth m b)
unfolding move_berth connection_requested trigger_start call_start start_answered bind_answered
move_berth-BerthSane (start_reply now answered) b h =
    ground (arith, transition-IsSane now starting b.machine)
move_berth-BerthSane _ b h = ground arith
