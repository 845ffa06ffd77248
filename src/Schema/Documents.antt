-- ===== src/Schema/Documents.antt =====
-- The types of the documents of crafty_server_watcher/health_server.py and webhook.py.
use crafty_server_watcher.Common.{
  String, Option, none, some, [], ◌∷◌, ℤ, pos, if◌then◌else◌, if_rule, eq_ℤ, str_eq, Bool-cases,
  inl, inr,
}
use crafty_server_watcher.Json.{null, num}
use crafty_server_watcher.ServerState.{ServerStateMachine, Machines}
use crafty_server_watcher.ServerState.Timing.{idle_elapsed}
use crafty_server_watcher.CraftyEvents.{CraftyEvent}
use crafty_server_watcher.Health.{Ids, Reply, unparsed, unknown_server, ignored, status}
use crafty_server_watcher.Health.Replies.{
  idle_seconds, server_fields, all_servers, build_status_json, about, reply_json,
}
use crafty_server_watcher.Webhook.Message.{Notifier, Message, build_discord_payload}
use crafty_server_watcher.Webhook.Message
use crafty_server_watcher.Schema.{
  Schema, or_null, list_of, dictionary_of, Shape, nothing, key, HasSchema, is_null, not_null, list,
  dictionary, object, no_items, item, EachHas, no_entries, entry, no_keys, keyed,
}

-- `GET /status`
abbrev pub server_schema : Schema
server_schema = Schema.object (
    key "state" Schema.text (
      key "port" Schema.whole (
        key "players_online" Schema.whole (
          key "players_max" Schema.whole (
            key "idle_seconds" (or_null Schema.number)
              (key "crafty_server_id" Schema.text nothing))))))

abbrev pub status_schema : Schema
status_schema = Schema.object (
    key "status" Schema.text
      (key "uptime_seconds" Schema.number (key "servers" (dictionary_of server_schema) nothing)))

idle_seconds-HasSchema :
    (round_1 : ℤ → ℤ) (now : ℤ) (sm : ServerStateMachine)
    → HasSchema (idle_seconds round_1 now sm) (or_null Schema.number)
unfolding idle_seconds
idle_seconds-HasSchema round_1 now sm = shown sm.idle_since
  where
    shown :
        (o : Option ℤ)
        → HasSchema
            (elim o [
              | none ↦ null
              | some t ↦ if eq_ℤ t (pos 0) then null else num (round_1 (idle_elapsed now sm))
            ])
            (or_null Schema.number)
    shown none = is_null
    shown (some t) =
        if_rule (λ v. HasSchema v (or_null Schema.number)) (eq_ℤ t (pos 0)) null
          (num (round_1 (idle_elapsed now sm))) is_null (not_null (HasSchema.number _))

servers-EachHas :
    (round_1 : ℤ → ℤ) (now : ℤ) (machines : Machines)
    → EachHas (all_servers round_1 now machines) server_schema
unfolding all_servers server_fields
servers-EachHas round_1 now [] = no_entries
servers-EachHas round_1 now ((name, sm) ∷ rest) =
    entry
      (object (
        keyed (HasSchema.text _) (
          keyed (HasSchema.whole _) (
            keyed (HasSchema.whole _) (
              keyed (HasSchema.whole _) (
                keyed (idle_seconds-HasSchema round_1 now sm)
                  (keyed (HasSchema.text _) no_keys)))))))
      (servers-EachHas round_1 now rest)

status-HasSchema :
    (round_1 : ℤ → ℤ) (start_time now : ℤ) (machines : Machines)
    → HasSchema (build_status_json round_1 start_time now machines) status_schema
unfolding build_status_json
status-HasSchema round_1 start_time now machines = object (
    keyed (HasSchema.text _) (
      keyed (HasSchema.number _)
        (keyed (dictionary (servers-EachHas round_1 now machines)) no_keys)))

-- A reply to one of Crafty's events: an object of texts.
abbrev pub reply_schema : Schema
reply_schema = dictionary_of Schema.text

reply-HasSchema :
    (ids : Ids) (event : Option CraftyEvent) (reply : Reply)
    → HasSchema (reply_json ids event reply) reply_schema
unfolding reply_json about
reply-HasSchema ids none unparsed = dictionary (entry (HasSchema.text _) no_entries)
reply-HasSchema ids none unknown_server = dictionary (entry (HasSchema.text _) no_entries)
reply-HasSchema ids none ignored = dictionary (entry (HasSchema.text _) no_entries)
reply-HasSchema ids none (status result) = dictionary (entry (HasSchema.text _) no_entries)
reply-HasSchema ids (some e) unparsed = dictionary (entry (HasSchema.text _) no_entries)
reply-HasSchema ids (some e) unknown_server =
    dictionary (entry (HasSchema.text _) (entry (HasSchema.text _) no_entries))
reply-HasSchema ids (some e) ignored =
    dictionary
      (entry (HasSchema.text _) (entry (HasSchema.text _) (entry (HasSchema.text _) no_entries)))
reply-HasSchema ids (some e) (status result) =
    dictionary
      (entry (HasSchema.text _) (entry (HasSchema.text _) (entry (HasSchema.text _) no_entries)))

-- A message to an address that is not Discord's.
abbrev pub message_schema : Schema
message_schema = Schema.object (
    key "event" Schema.text
      (key "server" Schema.text (key "message" Schema.text (key "timestamp" Schema.whole nothing))))

-- A message to Discord, with and without a footer.
abbrev pub embed_schema : Shape → Schema
embed_schema footer = Schema.object (
    key "embeds"
      (list_of (
        Schema.object (
          key "title" Schema.text (
            key "description" Schema.text
              (key "color" Schema.whole (key "timestamp" Schema.text footer))))))
      nothing)

abbrev pub footer_shape : Notifier → Shape
footer_shape n =
    if str_eq n.label ""
    then nothing
    else key "footer" (Schema.object (key "text" Schema.text nothing)) nothing

discord-HasSchema :
    (n : Notifier) (time : String) (m : Message)
    → HasSchema (build_discord_payload n time m) (embed_schema (footer_shape n))
unfolding build_discord_payload
discord-HasSchema n time m = elim (Bool-cases (str_eq n.label "")) [
  | inl e ↦ rw e (
      object (
        keyed
          (list (
            item
              (object (
                keyed (HasSchema.text _) (
                  keyed (HasSchema.text _)
                    (keyed (HasSchema.whole _) (keyed (HasSchema.text _) no_keys)))))
              no_items))
          no_keys))
  | inr e ↦ rw e (
      object (
        keyed
          (list (
            item
              (object (
                keyed (HasSchema.text _) (
                  keyed (HasSchema.text _) (
                    keyed (HasSchema.whole _) (
                      keyed (HasSchema.text _)
                        (keyed (object (keyed (HasSchema.text _) no_keys)) no_keys))))))
              no_items))
          no_keys))
]

unfoldable pub notifier_schema : Notifier → Schema
notifier_schema n = if n.is_discord then embed_schema (footer_shape n) else message_schema

payload-HasSchema :
    (lower : String → String) (n : Notifier) (time : String) (wall : ℤ) (server : String)
    (m : Message)
    → HasSchema (Message.payload lower n time wall server m) (notifier_schema n)
unfolding Message.payload notifier_schema
payload-HasSchema lower n time wall server m = elim (Bool-cases n.is_discord) [
  | inl e ↦ rw e (discord-HasSchema n time m)
  | inr e ↦ rw e (
      object (
        keyed (HasSchema.text _) (
          keyed (HasSchema.text _) (keyed (HasSchema.text _) (keyed (HasSchema.whole _) no_keys)))))
]

-- Whatever the machines, the event and the message are, the status and the reply of the health server have their
-- types, and so has a notification: for Discord an embed, with a footer exactly when there is a label, and
-- otherwise an object of texts with a whole number of seconds.
pub documents_have_types :
    (round_1 : ℤ → ℤ) (start_time now : ℤ) (machines : Machines) (ids : Ids)
    (event : Option CraftyEvent) (reply : Reply) (lower : String → String) (n : Notifier)
    (time : String) (wall : ℤ) (server : String) (m : Message)
    → HasSchema (build_status_json round_1 start_time now machines) status_schema
      × HasSchema (reply_json ids event reply) reply_schema
      × HasSchema (Message.payload lower n time wall server m) (notifier_schema n)
documents_have_types round_1 start_time now machines ids event reply lower n time wall server m = (
  status-HasSchema round_1 start_time now machines,
  reply-HasSchema ids event reply,
  payload-HasSchema lower n time wall server m,
)
