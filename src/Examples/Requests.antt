-- ===== src/Examples/Requests.antt =====
-- The theorems on access_control.py, webhook.py and health_server.py at concrete requests.
use crafty_server_watcher.Common.{
  ◌+◌, ◌≡◌, ◌↔◌, refl, String, true, false, none, some, List, [], ◌∷◌, ℤ, arith, length,
}
use crafty_server_watcher.Config.{default_access}
use crafty_server_watcher.Json.{str, arr, obj, nil, cons, end, field}
use crafty_server_watcher.AccessControl.{
  AccessController, File, file, holds, configured, is_allowed,
}
use crafty_server_watcher.AccessControl.Decision.{IsRefused, denied_exactly_when-IsRefused}
use crafty_server_watcher.Webhook.{Denials}
use crafty_server_watcher.Webhook.Denied.{attempts, reported, every_denial_counts}
use crafty_server_watcher.CraftyEvents.{CraftyEvent}
use crafty_server_watcher.Health.{Slots, Ids}
use crafty_server_watcher.Examples.Fixture.{at}
use crafty_server_watcher.Examples.Listener.{asleep}

abbrev pub plain : String → String
plain s = s

abbrev pub whitelisting : AccessController
unfolding configured default_access
whitelisting =
    configured plain
      (record {
        mode = "whitelist";
        whitelist_file = "whitelist.json";
        allowed_players = "alex" ∷ [];
        deny_message = "no";
      })
      []

abbrev pub list_file : File
list_file = file (at 7) (holds (arr (cons (obj (field "name" (str "steve") end)) nil)))

denied_exactly_when-IsRefused_example :
    ((is_allowed plain list_file "scanner" whitelisting).1 ≡ some false)
    ↔ IsRefused plain list_file "scanner" whitelisting
unfolding configured whitelisting
denied_exactly_when-IsRefused_example =
    denied_exactly_when-IsRefused plain list_file "scanner" whitelisting (λ h. ground arith)

pub alex_allowed : (is_allowed plain list_file "alex" whitelisting).1 ≡ some true
unfolding is_allowed configured whitelisting
alex_allowed = refl

abbrev silent : Denials
silent = record { last = none; suppressed = 0 }

abbrev scan : List ℤ
scan = at 10 ∷ at 20 ∷ at 30 ∷ at 80 ∷ []

every_denial_counts_example :
    reported (at 60) (attempts (at 60) scan silent).1 + (attempts (at 60) scan silent).0.suppressed
    ≡ length scan + 0
every_denial_counts_example = every_denial_counts (at 60) scan silent

abbrev pub managed : Slots
managed = ("survival", asleep) ∷ []

abbrev pub all_ids : Ids
all_ids = ("survival", "11-22") ∷ ("pocket", "33-44") ∷ []

abbrev pub started : String → CraftyEvent
started id = record { server_id = id; event = "start_server" }
