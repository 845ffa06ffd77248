-- ===== src/Process/Restart.antt =====
-- crafty_server_watcher/__main__.py: a watcher that is started again, with all its tasks.
use crafty_server_watcher.Common.{
  ◌≡◌, refl, String, Bool, true, Option, none, some, List, [], ◌∷◌, map, ℤ, ◌≤ℤ◌, ◌-ℤ◌, All,
}
use crafty_server_watcher.ServerState.{Machines, Snapshot}
use crafty_server_watcher.StateStore.{StateStore, returned, save, max_snapshot_age}
use crafty_server_watcher.StateStore.RoundTrip.{load-save}
use crafty_server_watcher.Startup.{Components}
use crafty_server_watcher.Startup.Ready.{IsReady, IsFresh, Split, none_left, to_first, to_second}
use crafty_server_watcher.IdleMonitor.Round.Sanity.{AllSane}
use crafty_server_watcher.Service.{watched_from, each, pending_restore}
use crafty_server_watcher.Service.Restart.{
  SaneMachines, carry, watched_from-AllSane, slots_from-SlotsSane, first_part-IsFresh,
}
use crafty_server_watcher.Process.{Process}
use crafty_server_watcher.Process.Tasks.{Label, run_process}
use crafty_server_watcher.Process.Start.{berths_from, begin_process, when_restored, start_process}
use crafty_server_watcher.Process.Sharing.{BerthsSane, IsSaneProcess}
use crafty_server_watcher.Process.Sanity.{run_process-IsSane}

second_part-IsFresh : {xs ys zs : Machines} → Split xs ys zs → All IsFresh zs → All IsFresh ys
second_part-IsFresh none_left h = tt
second_part-IsFresh (to_first rest) (q, h) = second_part-IsFresh rest h
second_part-IsFresh (to_second rest) (q, h) = (q, second_part-IsFresh rest h)

berths_from-BerthsSane :
    (machines : Machines) → All IsFresh machines → BerthsSane (berths_from machines)
unfolding berths_from each
berths_from-BerthsSane [] f = tt
berths_from-BerthsSane ((name, sm) ∷ rest) ((state, q), f) = (q, berths_from-BerthsSane rest f)

-- The tasks of a watcher that is ready begin with sane machines, if its monitor does.
pub begun-IsSane :
    (casefold : String → String) (c : Components) (shutdown reload : Bool)
    (pending : List (String × Snapshot))
    → IsReady c
    → AllSane (watched_from pending c.machines)
    → IsSaneProcess (begin_process casefold c shutdown reload pending)
unfolding begin_process
begun-IsSane casefold c shutdown reload pending ready sane = record {
  of_servers = sane;
  of_slots = slots_from-SlotsSane c.java (first_part-IsFresh ready.all_proxied ready.fresh);
  of_berths = berths_from-BerthsSane c.bedrock (second_part-IsFresh ready.all_proxied ready.fresh);
}

module _ (m w m' w' : ℤ) where
  -- A watcher that is ready, and whose store is on and holds what sane machines saved, at most a day ago by
  -- a wall clock that was not set back, starts its tasks without an exception from the file. Whatever the
  -- tasks meet, in every order of their turns, of signals, of reloads and of what the two proxies spawn, all
  -- the machines stay sane, as the monitor and both proxies see them.
  watcher_stays_sane :
      (webhook : Bool) (casefold : String → String) (int_of : String → Option ℤ) (old : Machines)
      (store : StateStore) (c : Components) (shutdown reload : Bool) (labels : List Label)
      → IsReady c
      → SaneMachines old
      → store.enabled ≡ true
      → w ≤ℤ w'
      → (w' -ℤ w) ≤ℤ max_snapshot_age
      → (p : Process) × (start_process casefold int_of m' w'
            (some (save m w old none store))
            c
            shutdown
            reload
          ≡ returned p)
        × IsSaneProcess (run_process webhook casefold labels p)
  unfolding start_process when_restored pending_restore
  watcher_stays_sane webhook casefold int_of old store c shutdown reload labels ready sane on h
        age =
      let begun = begin_process casefold c shutdown reload (map (carry m w m' w') old) in
      (
        begun,
        rw (load-save m w m' w' int_of old store on h age) refl,
        run_process-IsSane webhook casefold labels begun (
            begun-IsSane casefold c shutdown reload (map (carry m w m' w') old) ready
              (watched_from-AllSane m w m' w' old c.machines sane ready.fresh)),
      )
