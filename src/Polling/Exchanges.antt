-- ===== src/Polling/Exchanges.antt =====
-- What becomes of the exchanges with Crafty that fail, or whose reply cannot be read.
use Prim.Native.String.{◌++◌ as ◌+++◌}
use crafty_server_watcher.Common.{
  ℕ, ◌+◌, ◌≡◌, refl, ◌↔◌, String, Bool, true, false, none, List, [], ◌∷◌, length, leb, str_eq, ℤ,
  All, arith,
}
use crafty_server_watcher.State.{stopped, unknown, online, idle, stopping, elem}
use crafty_server_watcher.ServerState.{transition, update_from_stats}
use crafty_server_watcher.Json.{str, end, field, get, is_true}
use crafty_server_watcher.Values.{Python, look_up, is_mapping}
use crafty_server_watcher.CraftyApi.{
  CraftyApiClient, Library, HttpRequest, Exchange, broken, answered, returned, ◌>>=◌, get_key,
  status_ok, data_of, checked, request_sync, request, get_server_stats, stop_server,
}
use crafty_server_watcher.IdleMonitor.{
  Watched, poll_one, reconcile_pending, reconcile_with, react_watched, react, on_not_running,
}
use crafty_server_watcher.IdleMonitor.Round.{
  unreachable, replied, Reply, done, poll_server, poll_all, finish,
}
use crafty_server_watcher.IdleMonitor.Round.Outage.{
  IsFailure, outage_holds_state, unreachable_counts,
}
use crafty_server_watcher.Polling.{stats_of, answer_of, reply_for}

abbrev pub authorized : CraftyApiClient → String → String → HttpRequest
authorized client method path = record {
  method = method;
  path = path;
  body = none;
  headers = ("Authorization", "Bearer " +++ client.token) ∷ ("Accept", "application/json") ∷ [];
}

-- The request for a server's stats, and the one that stops it.
abbrev pub stats_request : CraftyApiClient → String → HttpRequest
stats_request client id = authorized client "GET" ("/api/v2/servers/" +++ id +++ "/stats")

abbrev pub stop_request : CraftyApiClient → String → HttpRequest
stop_request client id =
    authorized client "POST" ("/api/v2/servers/" +++ id +++ "/action/stop_server")

module _ (py : Python) (lib : Library) (client : CraftyApiClient) where
  broken_exchange :
      (id : String) (now later : ℤ)
      → lib.send client (stats_request client id) ≡ broken
      → (reply_for py lib client id now later).answer ≡ unreachable
  unfolding reply_for answer_of get_server_stats request request_sync checked
  broken_exchange id now later e = rw e refl

  -- A reply of a status below 400 whose text is empty or no JSON is a reply without any of the keys.
  unread :
      (id raw : String) (status : ℕ) (now later : ℤ)
      → lib.send client (stats_request client id) ≡ answered status raw
      → leb 400 status ≡ false
      → str_eq raw "" ≡ false
      → lib.loads raw ≡ none
      → (reply_for py lib client id now later).answer
        ≡ replied (stats_of py (field "raw" (str raw) end))
  unfolding reply_for answer_of get_server_stats request request_sync checked data_of get_key
      look_up
  unread id raw status now later e s n l = rw (e, s, n, l) refl

  -- The exchange was answered with a status below 400 and a reply that has keys.
  abbrev pub IsAccepted : Exchange → Type 0
  IsAccepted broken = ⊥
  IsAccepted (answered status raw) =
      (leb 400 status ≡ false) × (is_mapping (data_of lib raw) ≡ true)

  checked_stop_iff :
      (path : String) (e : Exchange)
      → (elim (checked lib client path e >>= status_ok) [ returned _ ↦ true | _ ↦ false ]) ≡ true
        ↔ IsAccepted e
  unfolding checked status_ok get_key
  checked_stop_iff path broken = (ground arith, λ h. absurd h)
  checked_stop_iff path (answered status raw) = (ground arith, ground arith)

  -- The monitor takes a stop for requested exactly when Crafty answers with a status below 400 and a
  -- reply that has keys; what the reply says about its own success makes no difference.
  pub stop_counts_exactly_when-IsAccepted :
      (id : String) (now later : ℤ)
      → (reply_for py lib client id now later).stop_answered ≡ true
        ↔ IsAccepted (lib.send client (stop_request client id))
  unfolding reply_for stop_server request request_sync
  stop_counts_exactly_when-IsAccepted id now later =
      checked_stop_iff ("/api/v2/servers/" +++ id +++ "/action/stop_server")
        (lib.send client (stop_request client id))

  abbrev pub replies : (String → String) → (String → ℤ) → (String → ℤ) → String → Reply
  replies id now later name = reply_for py lib client (id name) (now name) (later name)

  lost_everywhere :
      (id : String → String) (now later : String → ℤ) (servers : List (String × Watched))
      → ((r : HttpRequest) → lib.send client r ≡ broken)
      → All (λ (s : String × Watched). (replies id now later s.0).answer ≡ unreachable) servers
        × All (λ (s : String × Watched). IsFailure (replies id now later s.0).answer) servers
  lost_everywhere id now later [] down = (tt, tt)
  lost_everywhere id now later ((name, w) ∷ rest) down =
      let lost =
        broken_exchange (id name) (now name) (later name) (down (stats_request client (id name))) in
      let (all, none_came) = lost_everywhere id now later rest down in
      ((lost, all), (rw lost tt, none_came))

  -- A round in which no exchange gets through changes no server, and counts one failure for each.
  pub broken_round_changes_nothing :
      (webhook : Bool) (id : String → String) (now later : String → ℤ)
      (servers : List (String × Watched)) (failures : ℕ)
      → ((request : HttpRequest) → lib.send client request ≡ broken)
      → poll_all webhook (replies id now later) servers failures
        ≡ (servers, failures + length servers)
  broken_round_changes_nothing webhook id now later servers failures down =
      let (lost, none_came) = lost_everywhere id now later servers down in
      let kept = outage_holds_state webhook (replies id now later) servers failures none_came in
      let counted = unreachable_counts webhook (replies id now later) servers failures lost in cc

  -- A server that is seen not to run, and is neither asleep nor starting, is put to sleep.
  seen_down :
      (webhook : Bool) (name raw : String) (reply : Reply) (now : ℤ) (w : Watched)
      → elem w.machine.state (unknown ∷ online ∷ idle ∷ stopping ∷ []) ≡ true
      → w.pending ≡ none
      → let (w', outcome) =
          finish webhook name reply
            (poll_one webhook now name (stats_of py (field "raw" (str raw) end)) w) in
        (w'.machine.state ≡ stopped) × (outcome ≡ done)
  unfolding poll_one stats_of update_from_stats look_up get is_true reconcile_pending reconcile_with
      react_watched react on_not_running transition finish
  seen_down webhook name raw reply now w up p = ground arith

  -- A reply of a status below 400 whose text is not empty and no JSON moves a machine that is
  -- UNKNOWN, ONLINE, IDLE or STOPPING, with no snapshot to restore, to STOPPED, as a poll of a
  -- server that does not run does, and the poll counts as a success.
  pub unreadable_reply_stops_machine :
      (webhook : Bool) (name id raw : String) (status : ℕ) (now later : ℤ) (w : Watched)
      → lib.send client (stats_request client id) ≡ answered status raw
      → leb 400 status ≡ false
      → str_eq raw "" ≡ false
      → lib.loads raw ≡ none
      → elem w.machine.state (unknown ∷ online ∷ idle ∷ stopping ∷ []) ≡ true
      → w.pending ≡ none
      → let (w', outcome) = poll_server webhook name (reply_for py lib client id now later) w in
        (w'.machine.state ≡ stopped) × (outcome ≡ done)
  unfolding poll_server reply_for
  unreadable_reply_stops_machine webhook name id raw status now later w e s n l up p =
      let stats = stats_of py (field "raw" (str raw) end) in
      let reply = record (reply_for py lib client id now later) { answer = replied stats } in
      rw (unread id raw status now later e s n l) (seen_down webhook name raw reply now w up p)
