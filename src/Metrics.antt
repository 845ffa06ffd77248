-- ===== src/Metrics.antt =====
-- crafty_server_watcher/metrics.py: the text of the metrics. How numbers of seconds print, with one
-- decimal, is a parameter.
use Prim.Native.String.{◌++◌ as ◌+++◌}
use crafty_server_watcher.Common.{
  String, Bool, false, not, Option, none, some, List, [], ◌∷◌, ◌++◌, if◌then◌else◌, ℤ, pos, eq_ℤ,
  str_eq,
}
use crafty_server_watcher.State.{value}
use crafty_server_watcher.Text.{join}
use crafty_server_watcher.JsonText.{str_of_int}
use crafty_server_watcher.ServerState.{ServerStateMachine, Machines}
use crafty_server_watcher.ServerState.Timing.{idle_elapsed}

label_texts : List (String × String) → List String
label_texts [] = []
label_texts ((k, v) ∷ rest) = (k +++ "=\"" +++ v +++ "\"") ∷ label_texts rest

-- `_gauge`, of a value as it prints.
unfoldable pub gauge : String → List (String × String) → String → String
unfolding join label_texts
gauge name labels v = name +++ "{" +++ join "," (label_texts labels) +++ "} " +++ v

abbrev pub prefixed : String → String
prefixed name = "crafty_watcher_" +++ name

-- `if sm.idle_since`: a time of exactly 0.0 counts as none.
abbrev is_idle : Option ℤ → Bool
is_idle none = false
is_idle (some t) = not (eq_ℤ t (pos 0))

-- `counts.get(name, 0)`
unfoldable pub count_for : String → List (String × ℤ) → ℤ
count_for name [] = pos 0
count_for name ((n, c) ∷ rest) = if str_eq n name then c else count_for name rest

-- One sample for each server.
unfoldable pub samples : (String → ServerStateMachine → String) → Machines → List String
samples sample [] = []
samples sample ((name, sm) ∷ rest) = sample name sm ∷ samples sample rest

-- A metric with the lines about it, its samples, and the empty line behind them.
unfoldable pub family : String → String → String → List String → List String
family name help kind values =
    ("# HELP " +++ prefixed name +++ " " +++ help)
    ∷ ("# TYPE " +++ prefixed name +++ " " +++ kind)
    ∷ (values ++ "" ∷ [])

module _ (one_decimal rounded : ℤ → String) (now : ℤ) where
  unfoldable pub state_sample : String → ServerStateMachine → String
  unfolding gauge
  state_sample name sm =
      gauge (prefixed "server_state") (("server", name) ∷ ("state", value sm.state) ∷ []) "1"

  unfoldable pub server_sample :
      String → (ServerStateMachine → String) → String → ServerStateMachine → String
  unfolding gauge
  server_sample metric shown name sm = gauge (prefixed metric) (("server", name) ∷ []) (shown sm)

  idle_shown : ServerStateMachine → String
  idle_shown sm = if is_idle sm.idle_since then rounded (idle_elapsed now sm) else "0"

  count_sample : String → List (String × ℤ) → String → ServerStateMachine → String
  unfolding gauge count_for
  count_sample metric counts name sm =
      gauge (prefixed metric) (("server", name) ∷ []) (str_of_int (count_for name counts))

  unfoldable pub metric_lines : Machines → ℤ → List (String × ℤ) → List (String × ℤ) → List String
  unfolding family samples state_sample server_sample idle_shown count_sample
  metric_lines machines uptime starts stops =
      family "uptime_seconds" "Time since the service started" "gauge"
        ((prefixed "uptime_seconds" +++ " " +++ one_decimal uptime) ∷ [])
      ++ (family "server_state" "Current server state (1=active)" "gauge"
            (samples state_sample machines)
          ++ (family "players_online" "Current online player count" "gauge" (
                samples (server_sample "players_online" (λ sm. str_of_int sm.last_known_online))
                  machines)
              ++ (family "players_max" "Max player slots" "gauge" (
                    samples (server_sample "players_max" (λ sm. str_of_int sm.last_known_max))
                      machines)
                  ++ (family "idle_seconds" "Seconds the server has been idle (0 if not idle)"
                        "gauge" (samples (server_sample "idle_seconds" idle_shown) machines)
                      ++ (family "starts_total" "Total times this server was started" "counter"
                            (samples (count_sample "starts_total" starts) machines)
                          ++ family "stops_total" "Total times this server was stopped" "counter"
                              (samples (count_sample "stops_total" stops) machines))))))

  unfoldable pub generate_metrics : Machines → ℤ → List (String × ℤ) → List (String × ℤ) → String
  generate_metrics machines uptime starts stops =
      join "\n" (metric_lines machines uptime starts stops) +++ "\n"
