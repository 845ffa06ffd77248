-- ===== src/Examples/Documents.antt =====
-- What the watcher writes, and where it writes its messages.
use crafty_server_watcher.Common.{
  ◌≡◌, refl, leb, String, true, none, some, List, [], ◌∷◌, if◌then◌else◌, pos,
}
use crafty_server_watcher.Config.{LoggingConfig}
use crafty_server_watcher.ServerState.{Machines, Snapshot}
use crafty_server_watcher.CraftyEvents.{CraftyEvent}
use crafty_server_watcher.Health.{status}
use crafty_server_watcher.Health.Replies.{build_status_json, reply_json}
use crafty_server_watcher.StateStore.{StateStore, holds, returned, load}
use crafty_server_watcher.StateStore
use crafty_server_watcher.Webhook.Message.{Notifier, started_message}
use crafty_server_watcher.Webhook.Message
use crafty_server_watcher.Logging.{
  stderr, rotating_file, Root, new_root, attribute, setup_logging, basic_config, emitted,
  every_message_twice,
}
use crafty_server_watcher.Schema.{HasSchema}
use crafty_server_watcher.Schema.Documents.{
  status_schema, reply_schema, notifier_schema, documents_have_types,
}
use crafty_server_watcher.Schema.StateFile.{typed_file_loads, payload-HasSchema}
use crafty_server_watcher.Examples.Fixture.{at, idle_machine}

abbrev logging : LoggingConfig
logging = record {
  level = "INFO";
  file = "/var/log/crafty-server-watcher/service.log";
  max_bytes = pos 10485760;
  backup_count = pos 5;
}

every_message_twice_example :
    (root : Root) × (setup_logging (λ s. s) true logging (basic_config new_root) ≡ some root)
    × (emitted 30 root ≡ (
        if leb 20 30
        then stderr
          ∷ rotating_file logging.file logging.max_bytes logging.backup_count
          ∷ stderr
          ∷ []
        else []))
unfolding attribute
every_message_twice_example = every_message_twice (λ s. s) logging 20 30 refl

abbrev machines : Machines
machines = ("survival", idle_machine) ∷ []

abbrev saved : StateStore
saved = record {
  enabled = true;
  file = holds (StateStore.payload (at 400) (at 9000) machines);
  temp = none;
}

typed_file_loads_example :
    (snapshots : List (String × Snapshot)) × (load (λ s. none) (at 10) (at 9060) saved
      ≡ returned snapshots)
typed_file_loads_example =
    typed_file_loads (λ s. none) (at 10) (at 9060) (StateStore.payload (at 400) (at 9000) machines)
      saved (payload-HasSchema (at 400) (at 9000) machines) refl

abbrev discord : Notifier
discord = record {
  url = "https://discord.com/api/webhooks/1/abc";
  label = "home";
  cooldown = at 600;
  is_discord = true;
  host = "discord.com";
  port = none;
  path = "/api/webhooks/1/abc";
  scheme = "https";
}

abbrev start_event : CraftyEvent
start_event = record { server_id = "11-22"; event = "start_server" }

documents_have_types_example :
    HasSchema (build_status_json (λ n. n) (at 0) (at 500) machines) status_schema
    × HasSchema
        (reply_json (("survival", "11-22") ∷ []) (some start_event) (status "released"))
        reply_schema
    × HasSchema
        (Message.payload
          (λ s. s)
          discord
          "2024-01-01T00:00:00Z"
          (pos 1704067200)
          "survival"
          (started_message "survival" "steve" ""))
        (notifier_schema discord)
documents_have_types_example =
    documents_have_types (λ n. n) (at 0) (at 500) machines (("survival", "11-22") ∷ [])
      (some start_event) (status "released") (λ s. s) discord "2024-01-01T00:00:00Z"
      (pos 1704067200) "survival" (started_message "survival" "steve" "")
