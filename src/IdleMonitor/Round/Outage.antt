-- ===== src/IdleMonitor/Round/Outage.antt =====
-- Rounds in which the Crafty API fails.
use crafty_server_watcher.Common.{
  ℕ, suc, ◌+◌, ◌≡◌, ◌≢◌, refl, String, Bool, false, List, [], ◌∷◌, ◌++◌, All, length, arith, ap,
}
use crafty_server_watcher.IdleMonitor.{Watched, Reaction, settled, raised, stop_requested}
use crafty_server_watcher.IdleMonitor.Round.{
  Reply, Outcome, Answer, replied, unreachable, api_error, failed, connection_error, crafty_error,
  other_error, finish, answered, poll_server, poll_all, is_forbidden, next_failures,
}

-- No stats came back.
abbrev pub IsFailure : Answer → Type 0
IsFailure (replied _) = ⊥
IsFailure _ = Unit {0}

failure_outcome : Answer → Outcome
failure_outcome (replied _) = other_error
failure_outcome unreachable = connection_error
failure_outcome (api_error status) = crafty_error status
failure_outcome failed = other_error

answered_failure :
    (webhook : Bool) (name : String) (reply : Reply) (a : Answer) (w : Watched)
    → IsFailure a
    → answered webhook name reply a w ≡ (w, failure_outcome a)
unfolding answered failure_outcome
answered_failure webhook name reply (replied stats) w h = absurd h
answered_failure webhook name reply unreachable w h = refl
answered_failure webhook name reply (api_error status) w h = refl
answered_failure webhook name reply failed w h = refl

finish_not_forbidden :
    (webhook : Bool) (name : String) (reply : Reply) (x : Watched × Reaction)
    → is_forbidden (finish webhook name reply x).1 ≡ false
unfolding finish
finish_not_forbidden webhook name reply (w, settled) = refl
finish_not_forbidden webhook name reply (w, raised) = refl
finish_not_forbidden webhook name reply (w, stop_requested d) = refl

answered_not_forbidden :
    (webhook : Bool) (name : String) (reply : Reply) (a : Answer) (w : Watched)
    → a ≢ api_error 403
    → is_forbidden (answered webhook name reply a w).1 ≡ false
unfolding answered
answered_not_forbidden webhook name reply (replied stats) w h =
    finish_not_forbidden webhook name reply _
answered_not_forbidden webhook name reply unreachable w h = refl
answered_not_forbidden webhook name reply (api_error status) w h = ground arith
answered_not_forbidden webhook name reply failed w h = refl

not_forbidden :
    (webhook : Bool) (name : String) (reply : Reply) (w : Watched)
    → reply.answer ≢ api_error 403
    → is_forbidden (poll_server webhook name reply w).1 ≡ false
unfolding poll_server
not_forbidden webhook name reply w h = answered_not_forbidden webhook name reply reply.answer w h

module _ (webhook : Bool) (reply : String → Reply) where
  -- A round in which no server's stats come back leaves every server as it was: no transition, no
  -- request, no notification, and no snapshot used up.
  pub outage_holds_state :
      (servers : List (String × Watched)) (failures : ℕ)
      → All (λ (s : String × Watched). IsFailure (reply s.0).answer) servers
      → (poll_all webhook reply servers failures).0 ≡ servers
  unfolding poll_all poll_server
  outage_holds_state [] failures h = refl
  outage_holds_state ((name, w) ∷ rest) failures (h, hs) =
      rw (answered_failure webhook name (reply name) (reply name).answer w h) (
        ground (
          arith,
          outage_holds_state rest (next_failures (failure_outcome (reply name).answer) failures) hs,
        ))

  -- The failure counter of a round in which Crafty cannot be reached grows by one for each server.
  pub unreachable_counts :
      (servers : List (String × Watched)) (failures : ℕ)
      → All (λ (s : String × Watched). (reply s.0).answer ≡ unreachable) servers
      → (poll_all webhook reply servers failures).1 ≡ failures + length servers
  unfolding poll_all poll_server answered next_failures
  unreachable_counts [] failures h = omega arith
  unreachable_counts ((name, w) ∷ rest) failures (h, hs) =
      ground (arith, unreachable_counts rest (suc failures) hs)

  -- An answer of status 403 ends the round: the servers behind it are not polled.
  pub forbidden_ends_round :
      (before : List (String × Watched)) (name : String) (w : Watched)
      (after : List (String × Watched)) (failures : ℕ)
      → (reply name).answer ≡ api_error 403
      → All (λ (s : String × Watched). (reply s.0).answer ≢ api_error 403) before
      → (poll_all webhook reply (before ++ (name, w) ∷ after) failures).0
        ≡ (poll_all webhook reply before failures).0 ++ (name, w) ∷ after
  unfolding poll_all
  forbidden_ends_round [] name w after failures h hs = unfold poll_server answered in ground arith
  forbidden_ends_round ((n, v) ∷ before) name w after failures h (k, hs) =
      let outcome = (poll_server webhook n (reply n) v).1 in
      rw (not_forbidden webhook n (reply n) v k) (
        ap (λ l. (n, (poll_server webhook n (reply n) v).0) ∷ l)
          (forbidden_ends_round before name w after (next_failures outcome failures) h hs))
