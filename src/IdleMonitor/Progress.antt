-- ===== src/IdleMonitor/Progress.antt =====
-- What polls lead to over time: a start is given up, an idle server is stopped, a stop is awaited.
use crafty_server_watcher.Common.{
  ◌≡◌, refl, ◌≢◌, Bool, true, false, some, none, Option, String, ℤ, pos, ◌≤ℤ◌, ◌<ℤ◌, ◌-ℤ◌, arith,
  List, [], ◌∷◌, ◌++◌, All, if◌then◌else◌, str_eq, is_some,
}
use crafty_server_watcher.Config.{seconds}
use crafty_server_watcher.State.{online, idle, stopping, stopped, starting, crashed}
use crafty_server_watcher.ServerState.{Tracked, Stats, transition}
use crafty_server_watcher.IdleMonitor.{check_idle_shutdown, react, online_or_idle}
use crafty_server_watcher.IdleMonitor.Shutdown.{IsDue, due→stop}

-- Once the start timeout has passed a poll takes the server out of STARTING, whatever Crafty reports.
pub starting_ends :
    (webhook : Bool) (now started : ℤ) (name : String) (stats : Stats) (players : ℤ) (c : Tracked)
    → c.state ≡ starting
    → c.last_start_time ≡ some started
    → started ≢ pos 0
    → seconds c.cfg.start_timeout_seconds <ℤ (now -ℤ started)
    → (react webhook now name stats players c).0.state ≡ (
        if stats.crashed
        then crashed
        else if stats.running
        then (if str_eq stats.int_ping_results "True" then online else online_or_idle players)
        else stopped)
unfolding react transition
starting_ends webhook now started name stats players c s l z h = ground arith

-- One poll as the monitor sees it: the clock, the stats, the number of players.
pub record Poll : Type 0 where
  pub now : ℤ
  pub stats : Stats
  pub players : ℤ

-- Polls of one server up to the first that asks for a stop, with the idle time it reports.
unfoldable pub run_polls : Bool → String → List Poll → Tracked → Tracked × Option ℤ
run_polls webhook name [] c = (c, none)
run_polls webhook name (p ∷ rest) c =
    let (c', stop) = react webhook p.now name p.stats p.players c in
    elim stop [ some d ↦ (c', some d) | none ↦ run_polls webhook name rest c' ]

abbrev pub IsUp : Poll → Type 0
IsUp p = (p.stats.running ≡ true) × (p.stats.crashed ≡ false)

abbrev pub IsEmpty : Poll → Type 0
IsEmpty p = IsUp p × (p.players ≤ℤ pos 0)

idle_waits :
    (webhook : Bool) (name : String) (p : Poll) (c : Tracked)
    → c.state ≡ idle
    → IsEmpty p
    → (react webhook p.now name p.stats p.players c).1 ≡ none
    → react webhook p.now name p.stats p.players c ≡ (c, none)
unfolding react check_idle_shutdown
idle_waits webhook name p c s e n = ground arith

module _ (webhook : Bool) (name : String) (c : Tracked) where
  -- An idle server whose polls all find it up and empty is stopped by the poll at which it is due at
  -- the latest: no earlier poll resets its idle clock.
  pub idle_server_is_stopped :
      (polls : List Poll) (last : Poll)
      → c.state ≡ idle
      → All IsEmpty polls
      → IsDue last.now last.stats last.players c.sm
      → is_some (run_polls webhook name (polls ++ last ∷ []) c).1 ≡ true
  unfolding run_polls
  idle_server_is_stopped [] last s all due =
      ground (arith, due→stop webhook last.now name last.stats last.players c)
  idle_server_is_stopped (p ∷ rest) last s (e, all) due =
      ground (arith, idle_waits webhook name p c s e, idle_server_is_stopped rest last s all due)

  -- A server that Crafty was asked to stop and that stays up is left in STOPPING by every poll, and
  -- no poll asks again.
  pub stopping_waits :
      (polls : List Poll)
      → c.state ≡ stopping
      → All IsUp polls
      → run_polls webhook name polls c ≡ (c, none)
  unfolding run_polls react
  stopping_waits [] s all = refl
  stopping_waits (p ∷ rest) s (e, all) = ground (arith, stopping_waits rest s all)
