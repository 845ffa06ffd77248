-- ===== src/Examples/Starting.antt =====
-- The start of the watcher, and its restart.
use crafty_server_watcher.Common.{◌≡◌, refl, String, true, none, some, List, [], ◌∷◌}
use crafty_server_watcher.Json.{Json, str, arr, obj, nil, cons, end, field}
use crafty_server_watcher.Values.{look_up}
use crafty_server_watcher.ConfigLoader.{parsed}
use crafty_server_watcher.CraftyApi.{
  Library, answered, Called, check_health, list_servers, request, request_sync, checked, data_of,
  get_key, status_ok,
}
use crafty_server_watcher.Startup.{Components, running, known_ids, build, start_up}
use crafty_server_watcher.Startup.Ready.{IsReady, running-IsReady, starts}
use crafty_server_watcher.StateStore.{StateStore, missing}
use crafty_server_watcher.Proxy.Schedule.{login, closed, start_call, start_answer, start_event}
use crafty_server_watcher.IdleMonitor.Round.{Reply, replied, unreachable}
use crafty_server_watcher.Service.{Turn}
use crafty_server_watcher.Examples.Fixture.{at, up_empty}
use crafty_server_watcher.Examples.Loading.{
  no_state, python, environment, small_file, configuration, file_loads,
}
use crafty_server_watcher.Examples.Exchanges.{controller}

-- Crafty, healthy, with the one server.
abbrev healthy : Json
healthy = obj (
    field "status" (str "ok")
      (field "data" (arr (cons (obj (field "server_id" (str "11-22") end)) nil)) end))

abbrev pub crafty : Library
crafty = record {
  send = λ client request. answered 200 "{}";
  loads = λ s. some healthy;
  dumps = λ v. "";
}

unfoldable pub components : Components
unfolding build
components = build configuration ("11-22" ∷ [])

crafty_answers :
    (check_health crafty controller ≡ Called.returned true)
    × (list_servers crafty controller
        ≡ Called.returned (arr (cons (obj (field "server_id" (str "11-22") end)) nil)))
    × (known_ids (arr (cons (obj (field "server_id" (str "11-22") end)) nil)) ≡ some ("11-22" ∷ []))
unfolding check_health list_servers request request_sync checked data_of get_key status_ok look_up
    known_ids
crafty_answers = (refl, refl, refl)

pub started_up :
    start_up python environment crafty (λ cfg. controller) (parsed (obj small_file))
    ≡ running components
unfolding components
started_up =
    starts python environment crafty (λ cfg. controller) (parsed (obj small_file)) configuration
      (arr (cons (obj (field "server_id" (str "11-22") end)) nil)) ("11-22" ∷ []) file_loads
      crafty_answers.0 crafty_answers.1 crafty_answers.2

running-IsReady_example : IsReady components
running-IsReady_example =
    running-IsReady python environment crafty (λ cfg. controller) (parsed (obj small_file))
      components started_up

abbrev pub meeting : String → Reply
meeting name = record {
  now = at 20;
  answer = replied up_empty;
  stop_answered = true;
  later = at 21;
}

abbrev outage : String → Reply
outage name = record { now = at 20; answer = unreachable; stop_answered = true; later = at 21 }

abbrev pub state_file : StateStore
state_file = record { enabled = true; file = missing; temp = none }

abbrev pub first_turn : Turn
first_turn = record { reply = meeting; moves = ("survival", login true "steve" "10.0.0.9") ∷ [] }

abbrev further_turns : List Turn
further_turns =
    record {
      reply = outage;
      moves =
          ("survival", closed (at 22))
          ∷ ("survival", start_call)
          ∷ ("survival", start_answer (at 23) "steve" true)
          ∷ [];
    }
    ∷ record { reply = meeting; moves = ("survival", start_event (at 24)) ∷ [] }
    ∷ []

pub no_state_file : components.state_file ≡ none
unfolding components build
no_state_file = rw no_state refl
