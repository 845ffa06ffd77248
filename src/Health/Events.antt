-- ===== src/Health/Events.antt =====
-- Whom an event of Crafty's touches.
use crafty_server_watcher.Common.{
  ◌≡◌, refl, inl, inr, String, Bool, false, Option, none, some, [], ◌∷◌, ℤ, str_eq, eq_iff, ap, ◌∙◌,
  if◌then◌else◌, Bool-cases, arith, All,
}
use crafty_server_watcher.Proxy.{Slot}
use crafty_server_watcher.CraftyEvents.{CraftyEvent}
use crafty_server_watcher.Health.{
  Slots, Ids, name_of, unknown_server, status, PortEvent, port_event, move_port, at_name,
  process_crafty_event,
}

-- Each server has another id.
abbrev pub Others : String → Ids → Type 0
Others id ids = All (λ (s : String × String). str_eq s.1 id ≡ false) ids

name_of-Others : (id : String) (ids : Ids) → Others id ids → name_of id ids ≡ none
unfolding name_of
name_of-Others id [] h = refl
name_of-Others id ((n, own) ∷ rest) (q, h) = rw (name_of-Others id rest h) (rw q refl)

-- An event for a server that the watcher does not have changes nothing, and the reply says so.
pub stranger_changes_nothing :
    (webhook : Bool) (now : ℤ) (ids : Ids) (e : CraftyEvent) (slots : Slots)
    → Others e.server_id ids
    → process_crafty_event webhook now ids (some e) slots ≡ (slots, unknown_server)
unfolding process_crafty_event
stranger_changes_nothing webhook now ids e slots h = rw (name_of-Others e.server_id ids h) refl

-- The slot of a name, if there is one.
unfoldable pub slot_of : String → Slots → Option Slot
slot_of name [] = none
slot_of name ((n, p) ∷ rest) =
    let other = slot_of name rest in if str_eq n name then some p else other

at_name_elsewhere :
    (name other : String) (f : Slot → Slot × String) (slots : Slots)
    → str_eq name other ≡ false
    → slot_of other (at_name name f slots).0 ≡ slot_of other slots
unfolding slot_of at_name
at_name_elsewhere name other f [] h = refl
at_name_elsewhere name other f ((n, p) ∷ rest) h = elim (Bool-cases (str_eq n name)) [
  | inl e ↦
      let apart : str_eq n other ≡ false = ap (λ s. str_eq s other) ((eq_iff n name).0 e) ∙ h in
      rw e (rw apart refl)
  | inr e ↦ rw e (rw (at_name_elsewhere name other f rest h) refl)
]

at_name_here :
    (name : String) (f : Slot → Slot × String) (p : Slot) (slots : Slots)
    → slot_of name slots ≡ some p
    → (slot_of name (at_name name f slots).0 ≡ some (f p).0) × ((at_name name f slots).1 ≡ (f p).1)
unfolding slot_of at_name
at_name_here name f p [] h = absurd (ground arith)
at_name_here name f p ((n, q) ∷ rest) h = ground (arith, at_name_here name f p rest)

-- The event of a managed server, found by its id, calls the manager on that server and on no other:
-- the reply has the status of that call, and every other server is left as it was.
pub port_event_moves_one :
    (webhook : Bool) (now : ℤ) (ids : Ids) (e : CraftyEvent) (m : PortEvent) (name other : String)
    (p : Slot) (slots : Slots)
    → name_of e.server_id ids ≡ some name
    → port_event e.event ≡ some m
    → slot_of name slots ≡ some p
    → str_eq name other ≡ false
    → let r = process_crafty_event webhook now ids (some e) slots in
      (r.1 ≡ status (move_port webhook now name m p).1)
      × (slot_of name r.0 ≡ some (move_port webhook now name m p).0)
      × (slot_of other r.0 ≡ slot_of other slots)
unfolding process_crafty_event
port_event_moves_one webhook now ids e m name other p slots id ev here apart =
    rw (id, ev)
      (
        ap status (at_name_here name (move_port webhook now name m) p slots here).1,
        (at_name_here name (move_port webhook now name m) p slots here).0,
        at_name_elsewhere name other (move_port webhook now name m) slots apart,
      )
