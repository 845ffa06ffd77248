-- ===== src/Process/Finding.antt =====
-- What the holders of crafty_server_watcher/__main__.py's machines have for a name, after each change.
use crafty_server_watcher.Common.{
  ◌≡◌, refl, String, Option, none, some, List, [], ◌∷◌, str_eq, eq_iff, Bool-cases, inl, inr, arith,
}
use crafty_server_watcher.Reload.{find}
use crafty_server_watcher.Health.{Slots}
use crafty_server_watcher.Managers.{Berths, stop_all, stop_berths}
use crafty_server_watcher.IdleMonitor.{Watched}
use crafty_server_watcher.Service.{each, slot_machine, to_slots, watched_machine, to_servers}
use crafty_server_watcher.Process.{at_key, berth_machine, to_berths, berthed_machine, from_berths}

-- The value that is found, changed.
abbrev pub mapped {ℓ κ} : {V : Type ℓ} → {W : Type κ} → (V → W) → Option V → Option W
mapped f none = none
mapped f (some v) = some (f v)

pub mapped-none {ℓ κ} :
    {V : Type ℓ} {W : Type κ} (f : V → W) (o : Option V) → o ≡ none → mapped f o ≡ none
mapped-none f o h = rw h refl

pub find-each {ℓ κ} :
    {V : Type ℓ} {W : Type κ} (f : String → V → W) (name : String) (entries : List (String × V))
    → find name (each f entries) ≡ mapped (f name) (find name entries)
unfolding find each
find-each f name [] = refl
find-each f name ((n, v) ∷ rest) = elim (Bool-cases (str_eq n name)) [
  | inl e ↦ let same : n ≡ name = (eq_iff n name).0 e in rw e (rw same refl)
  | inr e ↦ rw e (find-each f name rest)
]

pub find-to_slots :
    (name : String) (servers : List (String × Watched)) (slots : Slots)
    → find name (to_slots servers slots)
      ≡ mapped (slot_machine (find name servers)) (find name slots)
unfolding to_slots
find-to_slots name servers slots = find-each _ name slots

pub find-to_servers :
    (name : String) (slots : Slots) (servers : List (String × Watched))
    → find name (to_servers slots servers)
      ≡ mapped (watched_machine (find name slots)) (find name servers)
unfolding to_servers
find-to_servers name slots servers = find-each _ name servers

pub find-to_berths :
    (name : String) (servers : List (String × Watched)) (berths : Berths)
    → find name (to_berths servers berths)
      ≡ mapped (berth_machine (find name servers)) (find name berths)
unfolding to_berths
find-to_berths name servers berths = find-each _ name berths

pub find-from_berths :
    (name : String) (berths : Berths) (servers : List (String × Watched))
    → find name (from_berths berths servers)
      ≡ mapped (berthed_machine (find name berths)) (find name servers)
unfolding from_berths
find-from_berths name berths servers = find-each _ name servers

-- What is found for no name is found for none after a change either.
pub find-at_key-none {ℓ} :
    {V : Type ℓ} (name key : String) (f : V → V) (entries : List (String × V))
    → find name entries ≡ none
    → find name (at_key key f entries) ≡ none
unfolding find at_key
find-at_key-none name key f [] h = refl
find-at_key-none name key f ((n, v) ∷ rest) h = ground (arith, find-at_key-none name key f rest)

pub find-stop_all-none :
    (name : String) (slots : Slots) → find name slots ≡ none → find name (stop_all slots) ≡ none
unfolding find stop_all
find-stop_all-none name [] h = refl
find-stop_all-none name ((n, v) ∷ rest) h = ground (arith, find-stop_all-none name rest)

pub find-stop_berths-none :
    (name : String) (berths : Berths)
    → find name berths ≡ none
    → find name (stop_berths berths) ≡ none
unfolding find stop_berths
find-stop_berths-none name [] h = refl
find-stop_berths-none name ((n, v) ∷ rest) h = ground (arith, find-stop_berths-none name rest)
