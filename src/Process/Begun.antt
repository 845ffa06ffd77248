-- ===== src/Process/Begun.antt =====
-- crafty_server_watcher/__main__.py: the tasks begin with the same machines, and keep sharing them.
use crafty_server_watcher.Common.{
  ◌≡◌, ◌⊎◌, refl, sym, ◌∙◌, String, Bool, Option, none, some, List, [], ◌∷◌, inl, inr, str_eq,
  arith, ℤ, eq_iff, Bool-cases,
}
use mathlib.Core.Option.{some_inj}
use mathlib.Core.Path.{subst}
use crafty_server_watcher.ServerState.{Snapshot, ServerStateMachine, Machines}
use crafty_server_watcher.StateStore.{StateStore, Raising, returned, raised}
use crafty_server_watcher.Reload.{find}
use crafty_server_watcher.Startup.{Components}
use crafty_server_watcher.Startup.Ready.{Split, none_left, to_first, to_second}
use crafty_server_watcher.Bedrock.{Berth}
use crafty_server_watcher.Proxy.{Slot}
use crafty_server_watcher.IdleMonitor.{Watched}
use crafty_server_watcher.Service.{
  watched_with, watched_from, new_slot, slots_from, pending_restore,
}
use crafty_server_watcher.Service.Sanity.{Holds}
use crafty_server_watcher.Process.{Process}
use crafty_server_watcher.Process.Start.{
  new_berth, berths_from, begin_process, when_restored, start_process,
}
use crafty_server_watcher.Process.Finding.{mapped, mapped-none, find-each}
use crafty_server_watcher.Process.Induction.{run_process-Holds}
use crafty_server_watcher.Process.Tasks.{Label, run_process}
use crafty_server_watcher.Process.View.{AreShared, Keeps-AreShared}

-- The names of the servers are distinct, as the keys of a dictionary are.
abbrev AreDistinct : Machines → Type 0
AreDistinct [] = Unit {0}
AreDistinct ((name, sm) ∷ rest) = (find name rest ≡ none) × AreDistinct rest

flipped : {xs ys zs : Machines} → Split xs ys zs → Split ys xs zs
flipped none_left = none_left
flipped (to_first rest) = to_second (flipped rest)
flipped (to_second rest) = to_first (flipped rest)

part-none :
    (name : String) {xs ys zs : Machines}
    → Split xs ys zs
    → find name zs ≡ none
    → find name xs ≡ none
unfolding find
part-none name none_left h = refl
part-none name (to_first rest) h = ground (arith, part-none name rest)
part-none name (to_second rest) h = part-none name rest (ground arith)

missing :
    (name n : String) (sm : ServerStateMachine) (rest : Machines)
    → n ≡ name
    → find n rest ≡ none
    → find name rest ≡ some sm
    → ⊥
missing name n sm rest e q h = cc

same-none :
    (name n : String) (rest : Machines) → n ≡ name → find n rest ≡ none → find name rest ≡ none
same-none name n rest e q = cc

-- A server of one edition is found among all the servers.
part-some :
    (name : String) {xs ys zs : Machines} (sm : ServerStateMachine)
    → Split xs ys zs
    → AreDistinct zs
    → find name xs ≡ some sm
    → find name zs ≡ some sm
unfolding find
part-some name sm none_left d h = h
part-some name sm (to_first rest) (q, d) h = ground (arith, part-some name sm rest d)
part-some name sm (to_second {s = s} rest) (q, d) h =
    let later = part-some name sm rest d h in
    elim (Bool-cases (str_eq s.0 name)) [
      | inl e ↦ absurd (missing name s.0 sm _ ((eq_iff s.0 name).0 e) q later)
      | inr e ↦ rw e later
    ]

parts-apart :
    (name : String) {xs ys zs : Machines}
    → Split xs ys zs
    → AreDistinct zs
    → (find name xs ≡ none) ⊎ (find name ys ≡ none)
unfolding find
parts-apart name none_left d = inl refl
parts-apart name (to_first {s = s} rest) (q, d) = elim (Bool-cases (str_eq s.0 name)) [
  | inl e ↦ inr (part-none name (flipped rest) (same-none name s.0 _ ((eq_iff s.0 name).0 e) q))
  | inr e ↦ rw e (parts-apart name rest d)
]
parts-apart name (to_second {s = s} rest) (q, d) = elim (Bool-cases (str_eq s.0 name)) [
  | inl e ↦ inl (part-none name rest (same-none name s.0 _ ((eq_iff s.0 name).0 e) q))
  | inr e ↦ rw e (parts-apart name rest d)
]

watched-machine :
    (pending : Option Snapshot) (o : Option ServerStateMachine) (sm : ServerStateMachine)
    (w : Watched)
    → o ≡ some sm
    → mapped (watched_with pending) o ≡ some w
    → w.machine ≡ record { sm = sm; trace = [] }
watched-machine pending none sm w e h = cc
watched-machine pending (some m) sm w e h = rw (← some_inj.0 h) (rw (some_inj.0 e) refl)

slot-machine :
    (o : Option ServerStateMachine) (s : Slot)
    → mapped new_slot o ≡ some s
    → (sm : ServerStateMachine) × (o ≡ some sm) × (s.machine ≡ record { sm = sm; trace = [] })
slot-machine none s h = cc
slot-machine (some sm) s h = (sm, refl, rw (← some_inj.0 h) refl)

berth-machine :
    (o : Option ServerStateMachine) (b : Berth)
    → mapped new_berth o ≡ some b
    → (sm : ServerStateMachine) × (o ≡ some sm) × (b.machine ≡ record { sm = sm; trace = [] })
berth-machine none s h = cc
berth-machine (some sm) s h = (sm, refl, rw (← some_inj.0 h) refl)

module _ (pending : List (String × Snapshot)) {java bedrock machines : Machines}
    (split : Split java bedrock machines) (distinct : AreDistinct machines) where
  begun-AreShared :
      AreShared (watched_from pending machines) (slots_from java) (berths_from bedrock)
  unfolding watched_from slots_from berths_from
  begun-AreShared = record {
    of_slots = λ name s w here there.
        let (sm, found, same) =
          slot-machine (find name java) s (sym (find-each _ name java) ∙ here) in
        same
        ∙ sym (
            watched-machine (find name pending) (find name machines) sm w
              (part-some name sm split distinct found) (sym (find-each _ name machines) ∙ there));
    of_berths = λ name b w here there.
        let (sm, found, same) =
          berth-machine (find name bedrock) b (sym (find-each _ name bedrock) ∙ here) in
        same
        ∙ sym (
            watched-machine (find name pending) (find name machines) sm w
              (part-some name sm (flipped split) distinct found)
              (sym (find-each _ name machines) ∙ there));
    apart = λ name. elim (parts-apart name split distinct) [
      | inl e ↦ inl (find-each _ name java ∙ mapped-none _ _ e)
      | inr e ↦ inr (find-each _ name bedrock ∙ mapped-none _ _ e)
    ];
  }

restored-AreShared :
    (casefold : String → String) (c : Components) (shutdown reload : Bool)
    (r : Raising (List (String × Snapshot))) (p : Process)
    → Split c.java c.bedrock c.machines
    → AreDistinct c.machines
    → when_restored casefold c shutdown reload r ≡ returned p
    → AreShared p.servers p.slots p.berths
unfolding when_restored begin_process
restored-AreShared casefold c shutdown reload raised p split distinct h = cc
restored-AreShared casefold c shutdown reload (returned pending) p split distinct h =
    let same : begin_process casefold c shutdown reload pending ≡ p = cc in
    subst (λ (q : Process). AreShared q.servers q.slots q.berths) same
      (begun-AreShared pending split distinct)

holds {ℓ} :
    {V : Type ℓ} (same : V → Type 0) (o : Option V) → ((v : V) → o ≡ some v → same v) → Holds same o
holds same none h = tt
holds same (some v) h = h v refl

-- When the two proxies have been given each server between them, the servers have distinct names, and the tasks
-- start, then in every state that they reach, whatever they meet, what a proxy has as the machine of a server
-- is what the monitor has as it, and no server has a proxy of both kinds.
one_machine_for_all :
    (webhook : Bool) (casefold : String → String) (int_of : String → Option ℤ) (monotonic wall : ℤ)
    (store : Option StateStore) (c : Components) (shutdown reload : Bool) (labels : List Label)
    (p : Process) (name : String) (w : Watched)
    → Split c.java c.bedrock c.machines
    → AreDistinct c.machines
    → start_process casefold int_of monotonic wall store c shutdown reload ≡ returned p
    → let q = run_process webhook casefold labels p in
      find name q.servers ≡ some w
      → Holds (λ (s : Slot). s.machine ≡ w.machine) (find name q.slots)
        × Holds (λ (b : Berth). b.machine ≡ w.machine) (find name q.berths)
        × ((find name q.slots ≡ none) ⊎ (find name q.berths ≡ none))
unfolding start_process
one_machine_for_all webhook casefold int_of monotonic wall store c shutdown reload labels p name w
      split distinct h there =
    let q = run_process webhook casefold labels p in
    let shared : AreShared q.servers q.slots q.berths =
      run_process-Holds webhook casefold AreShared (Keeps-AreShared webhook casefold) labels p (
        restored-AreShared casefold c shutdown reload (pending_restore int_of monotonic wall store)
          p split distinct h) in
    (
      holds _ (find name q.slots) (λ s here. shared.of_slots name s w here there),
      holds _ (find name q.berths) (λ b here. shared.of_berths name b w here there),
      shared.apart name,
    )
