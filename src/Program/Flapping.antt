-- ===== src/Program/Flapping.antt =====
-- crafty_server_watcher/__main__.py and server_state.py: the flap guard in a whole run of the watcher.
use crafty_server_watcher.Common.{◌≡◌, String, Bool, false, some, List, ℤ, pos, ◌<ℤ◌}
use mathlib.Core.Path.{subst}
use crafty_server_watcher.ServerState.Timing.{is_flapping}
use crafty_server_watcher.ServerState.Flapping.{flap_guard_off}
use crafty_server_watcher.Logging.{Root}
use crafty_server_watcher.StateStore.{File}
use crafty_server_watcher.Reload.{find}
use crafty_server_watcher.IdleMonitor.{Watched}
use crafty_server_watcher.IdleMonitor.Round.Sanity.{IsSaneWatched}
use crafty_server_watcher.Service.Sanity.{Holds, find-Holds}
use crafty_server_watcher.Process.{Process}
use crafty_server_watcher.Process.Tasks.{Label, run_process}
use crafty_server_watcher.Program.{Launch, serving, main}
use crafty_server_watcher.Program.Generations.{HasHistory, program_stays_sane}

-- With `flap_max_cycles` above 10, the flap guard never holds a stop back: however often a server has started and
-- stopped, in this run and in those before it on the same state file, it is not taken for flapping at any time.
pub flap_guard_never_acts :
    (g : Launch) (file : File) (root : Root) (webhook : Bool) (p : Process) (labels : List Label)
    (name : String) (w : Watched) (now : ℤ)
    → HasHistory file
    → main g file ≡ serving root webhook p
    → find name (run_process webhook g.casefold labels p).servers ≡ some w
    → pos 10 <ℤ w.machine.sm.cooldowns.flap_max_cycles
    → is_flapping now w.machine.sm ≡ false
flap_guard_never_acts g file root webhook p labels name w now history started there big =
    let q = run_process webhook g.casefold labels p in
    let sane = program_stays_sane g file root webhook p labels history started in
    let watched : IsSaneWatched w =
      subst (Holds IsSaneWatched) there (find-Holds IsSaneWatched name q.servers sane.of_servers) in
    flap_guard_off now w.machine.sm watched.machine big
