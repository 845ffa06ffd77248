-- ===== src/StateStore/Atomic.antt =====
-- What a failed or interrupted write leaves on disk.
use crafty_server_watcher.Common.{
  ◌≡◌, refl, String, true, false, some, none, List, [], ℤ, arith, ℕ, take, zero, if◌then◌else◌, ltb,
  suc,
}
use crafty_server_watcher.ServerState.{ServerStateMachine}
use crafty_server_watcher.Json.{Json}
use crafty_server_watcher.StateStore.{StateStore, holds, Stage, perform, perform_all, calls, save}

-- A save that fails at any stage leaves the file as it was and no temporary file, and turns the store
-- off.
pub failed_save_keeps_file :
    (monotonic wall : ℤ) (machines : List (String × ServerStateMachine)) (fault : Stage)
    (store : StateStore)
    → store.enabled ≡ true
    → store.temp ≡ none
    → save monotonic wall machines (some fault) store ≡ record store { enabled = false }
unfolding save
failed_save_keeps_file monotonic wall machines fault store on clean = ground arith

not_below : (n : ℕ) → ltb (suc (suc (suc (suc (suc n))))) 5 ≡ false
not_below n = ground arith

take_nil : (n : ℕ) → take {A = Stage} n [] ≡ []
take_nil zero = refl
take_nil (suc n) = refl

-- Wherever the process dies between the calls of a write, the file is what it was as long as the last of the five
-- calls was not made, and holds the whole new value once it was, whatever temporary file an earlier write has left.
pub interrupted_all_or_nothing :
    (value : Json) (n : ℕ) (store : StateStore)
    → (perform_all value (take n calls) store).file ≡ (if ltb n 5 then store.file else holds value)
unfolding perform_all perform
interrupted_all_or_nothing value zero store = refl
interrupted_all_or_nothing value (suc zero) store = refl
interrupted_all_or_nothing value (suc (suc zero)) store = refl
interrupted_all_or_nothing value (suc (suc (suc zero))) store = refl
interrupted_all_or_nothing value (suc (suc (suc (suc zero)))) store = refl
interrupted_all_or_nothing value (suc (suc (suc (suc (suc n))))) store =
    rw (not_below n) (rw (take_nil n) refl)
