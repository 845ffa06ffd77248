-- ===== src/Examples/Exchanges.antt =====
-- The theorems on crafty_api.py at concrete exchanges.
use crafty_server_watcher.Common.{◌≡◌, refl, ◌↔◌, true, false, none, [], ◌∷◌}
use crafty_server_watcher.State.{stopped}
use crafty_server_watcher.CraftyApi.{CraftyApiClient, Library, Exchange, broken, answered}
use crafty_server_watcher.IdleMonitor.{Watched}
use crafty_server_watcher.IdleMonitor.Round.{done, poll_all, poll_server}
use crafty_server_watcher.Polling.{reply_for}
use crafty_server_watcher.Polling.Exchanges.{
  IsAccepted, replies, stop_counts_exactly_when-IsAccepted, broken_round_changes_nothing,
  unreadable_reply_stops_machine,
}
use crafty_server_watcher.Examples.Fixture.{at, idle_run}
use crafty_server_watcher.Examples.Loading.{python}

abbrev pub controller : CraftyApiClient
controller = record {
  scheme = "https";
  host = "localhost";
  port = 8443;
  token = "secret";
  checks_certificate = false;
}

-- Crafty, when every exchange ends in the same way; nothing is JSON.
abbrev always : Exchange → Library
always e = record { send = λ client request. e; loads = λ s. none; dumps = λ v. "" }

abbrev login_page : Library
login_page = always (answered 200 "<html>")

abbrev watched : Watched
watched = record { machine = idle_run; pending = none }

stop_counts_exactly_when-IsAccepted_example :
    ((reply_for python login_page controller "11-22" (at 701) (at 702)).stop_answered ≡ true)
    ↔ IsAccepted python login_page controller (answered 200 "<html>")
stop_counts_exactly_when-IsAccepted_example =
    stop_counts_exactly_when-IsAccepted python login_page controller "11-22" (at 701) (at 702)

broken_round_changes_nothing_example :
    poll_all true
      (replies python
        (always broken)
        controller
        (λ name. "11-22")
        (λ name. at 701)
        (λ name. at 702))
      (("survival", watched) ∷ [])
      2
    ≡ (("survival", watched) ∷ [], 3)
broken_round_changes_nothing_example =
    broken_round_changes_nothing python (always broken) controller true (λ name. "11-22")
      (λ name. at 701) (λ name. at 702) (("survival", watched) ∷ []) 2 (λ request. refl)

unreadable_reply_stops_machine_example :
    let (w', outcome) =
      poll_server true "survival"
        (reply_for python login_page controller "11-22" (at 701) (at 702))
        watched in
    (w'.machine.state ≡ stopped) × (outcome ≡ done)
unreadable_reply_stops_machine_example =
    unreadable_reply_stops_machine python login_page controller true "survival" "11-22" "<html>" 200
      (at 701) (at 702) watched refl refl refl refl refl refl
