-- ===== src/Program/Pending.antt =====
-- What a start of crafty_server_watcher/__main__.py restores from the state file that sane machines left.
use crafty_server_watcher.Common.{
  ◌≡◌, refl, ◌⊎◌, inl, inr, String, Bool, true, Option, none, some, List, [], map, ℤ, All,
  Bool-cases, pos, times,
}
use mathlib.Core.Path.{subst}
use crafty_server_watcher.ServerState.{Machines, Snapshot}
use crafty_server_watcher.StateStore.{
  File, missing, unreadable, holds, StateStore, Raising, returned, raised, payload, load,
  load_fields, load_servers, is_fresh,
}
use crafty_server_watcher.StateStore.RoundTrip.{load_entries-dump}
use crafty_server_watcher.Json.{get, number}
use crafty_server_watcher.Startup.{Components}
use crafty_server_watcher.Startup.Ready.{IsReady, IsFresh}
use crafty_server_watcher.IdleMonitor.Round.Sanity.{AllSane}
use crafty_server_watcher.Service.{watched_from, pending_restore}
use crafty_server_watcher.Service.Restart.{SaneMachines, carry, watched_from-AllSane}
use crafty_server_watcher.Process.{Process}
use crafty_server_watcher.Process.Start.{begin_process, when_restored, start_process}
use crafty_server_watcher.Process.Sharing.{IsSaneProcess}
use crafty_server_watcher.Process.Restart.{begun-IsSane}
use crafty_server_watcher.Program.{Launch, store_of}

-- A file that sane machines left gives snapshots of sane machines, or none.
abbrev pub IsSaneFile : File → Type 0
IsSaneFile missing = Unit {0}
IsSaneFile unreadable = Unit {0}
IsSaneFile (holds v) =
    (monotonic wall : ℤ) × (old : Machines) × (v ≡ payload monotonic wall old) × SaneMachines old

module _ (m w m' w' : ℤ) where
  load-payload :
      (int_of : String → Option ℤ) (machines : Machines) (store : StateStore)
      → store.file ≡ holds (payload m w machines)
      → (load int_of m' w' store ≡ returned [])
        ⊎ (load int_of m' w' store ≡ returned (map (carry m w m' w') machines))
  unfolding load payload load_fields load_servers get number times
  load-payload int_of machines store e = elim (Bool-cases (is_fresh w' w)) [
    | inl f ↦ inr (rw e (rw f (load_entries-dump m w m' w' int_of machines)))
    | inr f ↦ inl (rw e (rw f refl))
  ]

  restored-AllSane :
      (int_of : String → Option ℤ) (old machines : Machines) (store : StateStore)
      (pending : List (String × Snapshot))
      → store.file ≡ holds (payload m w old)
      → SaneMachines old
      → All IsFresh machines
      → load int_of m' w' store ≡ returned pending
      → AllSane (watched_from pending machines)
  restored-AllSane int_of old machines store pending e sane fresh h =
      elim (load-payload int_of old store e) [
        | inl none_left ↦
            let same : [] ≡ pending = cc in
            subst (λ ps. AllSane (watched_from ps machines)) same
              (watched_from-AllSane m w m' w' [] machines tt fresh)
        | inr all ↦
            let same : map (carry m w m' w') old ≡ pending = cc in
            subst (λ ps. AllSane (watched_from ps machines)) same
              (watched_from-AllSane m w m' w' old machines sane fresh)
      ]

nothing-AllSane :
    (pending : List (String × Snapshot)) (machines : Machines)
    → ◌≡◌ {A = Raising (List (String × Snapshot))} (returned []) (returned pending)
    → All IsFresh machines
    → AllSane (watched_from pending machines)
nothing-AllSane pending machines h fresh =
    let same : [] ≡ pending = cc in
    subst (λ ps. AllSane (watched_from ps machines)) same
      (watched_from-AllSane (pos 0) (pos 0) (pos 0) (pos 0) [] machines tt fresh)

pub store-AllSane :
    (int_of : String → Option ℤ) (monotonic wall : ℤ) (path : Option String) (file : File)
    (machines : Machines) (pending : List (String × Snapshot))
    → IsSaneFile file
    → All IsFresh machines
    → pending_restore int_of monotonic wall (store_of path file) ≡ returned pending
    → AllSane (watched_from pending machines)
unfolding pending_restore load
store-AllSane int_of monotonic wall none file machines pending f fresh h =
    nothing-AllSane pending machines h fresh
store-AllSane int_of monotonic wall (some path) missing machines pending f fresh h =
    nothing-AllSane pending machines h fresh
store-AllSane int_of monotonic wall (some path) unreadable machines pending f fresh h =
    nothing-AllSane pending machines h fresh
store-AllSane int_of monotonic wall (some path) (holds v) machines pending (m, w, old, e, sane)
      fresh h =
    restored-AllSane m w monotonic wall int_of old machines
      (record { enabled = true; file = holds v; temp = none }) pending (rw e refl) sane fresh h

pub restored-IsSane :
    (g : Launch) (c : Components) (path : Option String) (file : File)
    (r : Raising (List (String × Snapshot))) (p : Process)
    → IsReady c
    → ((pending : List (String × Snapshot))
        → r ≡ returned pending
        → AllSane (watched_from pending c.machines))
    → when_restored g.casefold c g.told_to_end g.told_to_reload r ≡ returned p
    → IsSaneProcess p
unfolding when_restored
restored-IsSane g c path file raised p ready sane h = cc
restored-IsSane g c path file (returned pending) p ready sane h =
    let same : begin_process g.casefold c g.told_to_end g.told_to_reload pending ≡ p = cc in
    subst IsSaneProcess same
      (begun-IsSane g.casefold c g.told_to_end g.told_to_reload pending ready (sane pending refl))

-- Where no file is, the tasks begin with nothing to restore.
pub start_process-missing :
    (casefold : String → String) (int_of : String → Option ℤ) (monotonic wall : ℤ)
    (path : Option String) (c : Components) (shutdown reload : Bool)
    → start_process casefold int_of monotonic wall (store_of path missing) c shutdown reload
      ≡ returned (begin_process casefold c shutdown reload [])
unfolding start_process when_restored pending_restore load
start_process-missing casefold int_of monotonic wall none c shutdown reload = refl
start_process-missing casefold int_of monotonic wall (some path) c shutdown reload = refl
