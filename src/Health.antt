-- ===== src/Health.antt =====
-- crafty_server_watcher/health_server.py: what one of Crafty's events does. The event is what
-- `parse_event` found in the body.
pub mod Events
pub mod Replies
pub mod Http
use crafty_server_watcher.Common.{
  String, Bool, true, false, Option, none, some, List, [], ◌∷◌, if◌then◌else◌, ℤ, str_eq,
}
use crafty_server_watcher.CraftyEvents.{CraftyEvent}
use crafty_server_watcher.Proxy.{Slot, release_for_start, reclaim_after_stop, crafty_console}

-- `CRAFTY_KILL` of crafty_events.py
abbrev pub crafty_kill : String
crafty_kill = "Crafty (force kill)"

-- The servers that the proxy manager has, by name.
abbrev pub Slots : Type 0
Slots = List (String × Slot)

-- The id of every server, Java and Bedrock, by its name: `ids` turned round. Of two servers with one id
-- the later one counts in `ids.get(server_id)`.
abbrev pub Ids : Type 0
Ids = List (String × String)

unfoldable pub name_of : String → Ids → Option String
name_of id [] = none
name_of id ((name, own) ∷ rest) = elim (name_of id rest) [
  | some other ↦ some other
  | none ↦ if str_eq own id then some name else none
]

-- The reply's "result", by what came of the event.
pub data Reply : Type 0 where
  unparsed unknown_server ignored : Reply
  status : String → Reply

-- What `_process_crafty_event` calls for an event that moves the port: `_PORT_EVENTS`, with
-- `_STOP_SOURCES`.
pub data PortEvent : Type 0 where
  start crash : PortEvent
  stop : String → PortEvent

unfoldable pub port_event : String → Option PortEvent
port_event event =
    if str_eq event "start_server"
    then some start
    else if str_eq event "crash_detected"
    then some crash
    else if str_eq event "stop_server"
    then some (stop crafty_console)
    else if str_eq event "kill"
    then some (stop crafty_kill)
    else none

unfoldable pub move_port : Bool → ℤ → String → PortEvent → Slot → Slot × String
move_port webhook now name start p = release_for_start webhook now name p
move_port webhook now name crash p = reclaim_after_stop webhook now name true "" p
move_port webhook now name (stop source) p = reclaim_after_stop webhook now name false source p

-- The manager's call on the server of a name: "not_managed" when it has none.
unfoldable pub at_name : String → (Slot → Slot × String) → Slots → Slots × String
at_name name f [] = ([], "not_managed")
at_name name f ((n, p) ∷ rest) =
    let (rest', result) = at_name name f rest in
    if str_eq n name then ((n, (f p).0) ∷ rest, (f p).1) else ((n, p) ∷ rest', result)

act : Bool → ℤ → String → Option PortEvent → Slots → Slots × Reply
act webhook now name none slots = (slots, ignored)
act webhook now name (some e) slots =
    let (slots', result) = at_name name (move_port webhook now name e) slots in
    (slots', status result)

for_name : Bool → ℤ → Option String → String → Slots → Slots × Reply
unfolding act
for_name webhook now none event slots = (slots, unknown_server)
for_name webhook now (some name) event slots = act webhook now name (port_event event) slots

-- `_process_crafty_event` with a proxy manager.
unfoldable pub process_crafty_event : Bool → ℤ → Ids → Option CraftyEvent → Slots → Slots × Reply
unfolding for_name
process_crafty_event webhook now ids none slots = (slots, unparsed)
process_crafty_event webhook now ids (some e) slots =
    for_name webhook now (name_of e.server_id ids) e.event slots
