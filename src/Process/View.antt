-- ===== src/Process/View.antt =====
-- crafty_server_watcher/__main__.py: the components are given the same machines.
use crafty_server_watcher.Common.{
  ◌≡◌, ◌⊎◌, refl, sym, ap, ◌∙◌, String, Bool, Option, none, some, List, inl, inr,
}
use mathlib.Core.Option.{some_inj}
use mathlib.Core.Path.{subst}
use crafty_server_watcher.Reload.{find}
use crafty_server_watcher.Bedrock.{Berth}
use crafty_server_watcher.Proxy.{Slot}
use crafty_server_watcher.Health.{Slots}
use crafty_server_watcher.Managers.{Berths}
use crafty_server_watcher.IdleMonitor.{Watched}
use crafty_server_watcher.Service.{slot_machine, to_slots, watched_machine, to_servers}
use crafty_server_watcher.Process.{berth_machine, to_berths, berthed_machine, from_berths}
use crafty_server_watcher.Process.Induction.{Keeps}
use crafty_server_watcher.Process.Finding.{
  mapped, mapped-none, find-to_slots, find-to_servers, find-to_berths, find-from_berths,
  find-at_key-none, find-stop_all-none, find-stop_berths-none,
}

-- A proxy has the machine that the monitor has for the same server, and no server has two proxies.
pub record AreShared (servers : List (String × Watched)) (slots : Slots) (berths : Berths)
    : Type 0 where
  pub of_slots :
      (name : String) (s : Slot) (w : Watched)
      → find name slots ≡ some s
      → find name servers ≡ some w
      → s.machine ≡ w.machine
  pub of_berths :
      (name : String) (b : Berth) (w : Watched)
      → find name berths ≡ some b
      → find name servers ≡ some w
      → b.machine ≡ w.machine
  pub apart : (name : String) → (find name slots ≡ none) ⊎ (find name berths ≡ none)

slot-sees :
    (o : Option Slot) (w : Watched) (s : Slot)
    → mapped (slot_machine (some w)) o ≡ some s
    → s.machine ≡ w.machine
slot-sees none w s h = cc
slot-sees (some p) w s h = ap (λ (x : Slot). x.machine) (sym (some_inj.0 h))

slot-seen :
    (o : Option Watched) (p : Slot) (w : Watched)
    → mapped (watched_machine (some p)) o ≡ some w
    → p.machine ≡ w.machine
slot-seen none p w h = cc
slot-seen (some v) p w h = ap (λ (x : Watched). x.machine) (some_inj.0 h)

berth-sees :
    (o : Option Berth) (w : Watched) (b : Berth)
    → mapped (berth_machine (some w)) o ≡ some b
    → b.machine ≡ w.machine
berth-sees none w b h = cc
berth-sees (some p) w b h = ap (λ (x : Berth). x.machine) (sym (some_inj.0 h))

berth-seen :
    (o : Option Watched) (b : Berth) (w : Watched)
    → mapped (berthed_machine (some b)) o ≡ some w
    → b.machine ≡ w.machine
berth-seen none b w h = cc
berth-seen (some v) b w h = ap (λ (x : Watched). x.machine) (some_inj.0 h)

mapped-id {ℓ} : {V : Type ℓ} (o : Option V) → mapped (λ v. v) o ≡ o
mapped-id none = refl
mapped-id (some v) = refl

module _ (servers : List (String × Watched)) (slots : Slots) (berths : Berths)
    (h : AreShared servers slots berths) where
  servers_changed :
      (servers' : List (String × Watched))
      → AreShared servers' (to_slots servers' slots) (to_berths servers' berths)
  servers_changed servers' = record {
    of_slots = λ name s w here there. slot-sees (find name slots) w s (
        subst (λ o. mapped (slot_machine o) (find name slots) ≡ some s) there
          (sym (find-to_slots name servers' slots) ∙ here));
    of_berths = λ name b w here there. berth-sees (find name berths) w b (
        subst (λ o. mapped (berth_machine o) (find name berths) ≡ some b) there
          (sym (find-to_berths name servers' berths) ∙ here));
    apart = λ name. elim (h.apart name) [
      | inl e ↦ inl (find-to_slots name servers' slots ∙ mapped-none _ _ e)
      | inr e ↦ inr (find-to_berths name servers' berths ∙ mapped-none _ _ e)
    ];
  }

  slots_changed :
      (slots' : Slots)
      → ((name : String) → find name slots ≡ none → find name slots' ≡ none)
      → AreShared (to_servers slots' servers) slots' berths
  slots_changed slots' within = record {
    of_slots = λ name s w here there. slot-seen (find name servers) s w (
        subst (λ o. mapped (watched_machine o) (find name servers) ≡ some w) here
          (sym (find-to_servers name slots' servers) ∙ there));
    of_berths = λ name b w here there. elim (h.apart name) [
      | inr e ↦ cc
      | inl e ↦ h.of_berths name b w here (
          sym (mapped-id (find name servers))
          ∙ subst (λ o. mapped (watched_machine o) (find name servers) ≡ some w) (within name e)
              (sym (find-to_servers name slots' servers) ∙ there))
    ];
    apart = λ name. elim (h.apart name) [ inl e ↦ inl (within name e) | inr e ↦ inr e ];
  }

  berths_changed :
      (berths' : Berths)
      → ((name : String) → find name berths ≡ none → find name berths' ≡ none)
      → AreShared (from_berths berths' servers) slots berths'
  berths_changed berths' within = record {
    of_berths = λ name b w here there. berth-seen (find name servers) b w (
        subst (λ o. mapped (berthed_machine o) (find name servers) ≡ some w) here
          (sym (find-from_berths name berths' servers) ∙ there));
    of_slots = λ name s w here there. elim (h.apart name) [
      | inl e ↦ cc
      | inr e ↦ h.of_slots name s w here (
          sym (mapped-id (find name servers))
          ∙ subst (λ o. mapped (berthed_machine o) (find name servers) ≡ some w) (within name e)
              (sym (find-from_berths name berths' servers) ∙ there))
    ];
    apart = λ name. elim (h.apart name) [ inl e ↦ inl e | inr e ↦ inr (within name e) ];
  }

pub Keeps-AreShared :
    (webhook : Bool) (casefold : String → String) → Keeps webhook casefold AreShared
Keeps-AreShared webhook casefold = record {
  polled =
      λ name now answer w servers slots berths found h. servers_changed servers slots berths h _;
  stopped = λ name d met servers slots berths h. servers_changed servers slots berths h _;
  moved = λ name m servers slots berths h.
      slots_changed servers slots berths h _ (λ n. find-at_key-none n name _ slots);
  slots_stopped = λ servers slots berths h.
      slots_changed servers slots berths h _ (λ n. find-stop_all-none n slots);
  ensured = λ name servers slots berths h.
      berths_changed servers slots berths h _ (λ n. find-at_key-none n name _ berths);
  berth_moved = λ name m servers slots berths h.
      berths_changed servers slots berths h _ (λ n. find-at_key-none n name _ berths);
  berths_stopped = λ servers slots berths h.
      berths_changed servers slots berths h _ (λ n. find-stop_berths-none n berths);
  reloaded = λ new cfg access servers slots berths h. servers_changed servers slots berths h _;
}
