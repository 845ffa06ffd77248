-- ===== src/Service/Restart.antt =====
-- A watcher that is started again.
use crafty_server_watcher.Common.{
  ◌≡◌, refl, String, Bool, true, Option, none, some, List, [], ◌∷◌, map, ℤ, ◌≤ℤ◌, ◌-ℤ◌, All, str_eq,
  Bool-cases, inl, inr,
}
use crafty_server_watcher.ServerState.{Snapshot, ServerStateMachine, Machines}
use crafty_server_watcher.ServerState.Invariant.{IsSane}
use crafty_server_watcher.StateStore.{StateStore, returned, save, max_snapshot_age}
use crafty_server_watcher.StateStore.RoundTrip.{
  carried, load-save, carried-IsSaneSnapshot, state-carried,
}
use crafty_server_watcher.Reload.{find}
use crafty_server_watcher.Startup.{Components}
use crafty_server_watcher.Startup.Ready.{IsReady, IsFresh}
use crafty_server_watcher.Startup.Ready.{Split, none_left, to_first, to_second}
use crafty_server_watcher.IdleMonitor.Round.Sanity.{IsSanePending, AllSane}
use crafty_server_watcher.Service.{
  each, watched_from, slots_from, pending_restore, Service, Turn, turns, begin_turns, run_monitor,
}
use crafty_server_watcher.Service.Sanity.{SlotsSane, IsSaneService, turns-IsSaneService}

pub first_part-IsFresh : {xs ys zs : Machines} → Split xs ys zs → All IsFresh zs → All IsFresh xs
first_part-IsFresh none_left h = tt
first_part-IsFresh (to_first rest) (q, h) = (q, first_part-IsFresh rest h)
first_part-IsFresh (to_second rest) (q, h) = first_part-IsFresh rest h

pub slots_from-SlotsSane :
    (machines : Machines) → All IsFresh machines → SlotsSane (slots_from machines)
unfolding slots_from each
slots_from-SlotsSane [] f = tt
slots_from-SlotsSane ((name, sm) ∷ rest) ((state, q), f) = (q, slots_from-SlotsSane rest f)

abbrev pub SaneMachines : Machines → Type 0
SaneMachines = All (λ (s : String × ServerStateMachine). IsSane s.1)

module _ (m w m' w' : ℤ) where
  abbrev pub carry : String × ServerStateMachine → String × Snapshot
  carry (name, sm) = (name, carried m w m' w' sm)

  find-IsSanePending :
      (name : String) (old : Machines)
      → SaneMachines old
      → IsSanePending (find name (map carry old))
  unfolding find
  find-IsSanePending name [] h = tt
  find-IsSanePending name ((n, sm) ∷ rest) (q, h) = elim (Bool-cases (str_eq n name)) [
    | inl e ↦ rw e (sm.state, state-carried m w m' w' sm, carried-IsSaneSnapshot m w m' w' sm q)
    | inr e ↦ rw e (find-IsSanePending name rest h)
  ]

  pub watched_from-AllSane :
      (old machines : Machines)
      → SaneMachines old
      → All IsFresh machines
      → AllSane (watched_from (map carry old) machines)
  unfolding watched_from each
  watched_from-AllSane old [] h f = tt
  watched_from-AllSane old ((name, sm) ∷ rest) h ((state, q), f) = (
    record { machine = q; pending = find-IsSanePending name old h },
    watched_from-AllSane old rest h f,
  )

  -- A watcher that is ready, and whose store is on and holds what sane machines saved, at most a
  -- day ago by a wall clock that was not set back, runs its monitor without an exception from the
  -- file. All the machines, the monitor's and those of the proxy's slots, are sane after any number
  -- of rounds, whatever these meet, and after any moves of the proxy's tasks in any order between
  -- the rounds.
  restart_stays_sane :
      (webhook : Bool) (int_of : String → Option ℤ) (old : Machines) (store : StateStore)
      (c : Components) (first : Turn) (rest : List Turn)
      → IsReady c
      → SaneMachines old
      → store.enabled ≡ true
      → w ≤ℤ w'
      → (w' -ℤ w) ≤ℤ max_snapshot_age
      → (s : Service) × (run_monitor webhook int_of m' w'
            (some (save m w old none store))
            first
            rest
            c.machines
            c.java
          ≡ returned s)
        × IsSaneService s
  unfolding run_monitor begin_turns pending_restore
  restart_stays_sane webhook int_of old store c first rest ready sane on h age =
      let begun : Service = record {
        servers = watched_from (map carry old) c.machines;
        failures = 0;
        slots = slots_from c.java;
      } in
      (
        turns webhook (first ∷ rest) begun,
        rw (load-save m w m' w' int_of old store on h age) refl,
        turns-IsSaneService webhook (first ∷ rest) begun (record {
          servers = watched_from-AllSane old c.machines sane ready.fresh;
          slots = slots_from-SlotsSane c.java (first_part-IsFresh ready.all_proxied ready.fresh);
        }),
      )
