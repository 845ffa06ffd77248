-- ===== src/StateStore/RoundTrip.antt =====
-- What `load` reads of what `save` wrote, and what a machine restored from it has.
use crafty_server_watcher.Common.{
  ◌≡◌, refl, ap, String, Bool, true, Option, none, some, List, [], ◌∷◌, map, if◌then◌else◌, ℤ, pos,
  ◌-ℤ◌, ◌+ℤ◌, ◌≤ℤ◌, eq_ℤ, times, -ℤ_parts, arith, int_laws,
}
use mathlib.Core.Option
use crafty_server_watcher.State.{value}
use crafty_server_watcher.State.Graph.{of_value-value}
use crafty_server_watcher.ServerState.{ServerStateMachine, Snapshot, restore, is_running}
use crafty_server_watcher.ServerState.Invariant.{IsSane, IsSaneSnapshot}
use crafty_server_watcher.ServerState.Timing.{idle_elapsed}
use crafty_server_watcher.Json.{
  num, obj, get, to_list, of_list, fields, of_fields, number, text, whole-times,
}
use crafty_server_watcher.StateStore.{
  StateStore, returned, to_wall, to_mono, dump_time, dump_one, payload, save, time_of, times_of,
  history_of, load_entry, load_entries, load_servers, load_fields, load, max_snapshot_age, count_of,
  is_fresh,
}

fresh_within_a_day : (w w' : ℤ) → w ≤ℤ w' → (w' -ℤ w) ≤ℤ max_snapshot_age → is_fresh w' w ≡ true
fresh_within_a_day w w' h age = ground (arith, -ℤ_parts w' w)

module _ (m w m' w' : ℤ) where
  -- A reading of the old clock as a reading of the new one: as long ago as it was at the save, and the
  -- time since the save.
  pub shift : ℤ → ℤ
  shift t = m' -ℤ ((m -ℤ t) +ℤ (w' -ℤ w))

  to_mono-to_wall : (t : ℤ) → to_mono m' w' (to_wall m w t) ≡ shift t
  unfolding to_mono to_wall shift
  to_mono-to_wall t = ap (λ (age : ℤ). m' -ℤ age) (omega int_laws)

  -- The readings of a history, but for one that would be 0.
  pub shift_history : List ℤ → List ℤ
  shift_history [] = []
  shift_history (t ∷ rest) =
      let others = shift_history rest in if eq_ℤ (shift t) (pos 0) then others else shift t ∷ others

  -- A machine as a snapshot for the new clock.
  pub carried : ServerStateMachine → Snapshot
  unfolding shift_history shift
  carried sm = record {
    state = some (value sm.state);
    idle_since = Option.map shift sm.idle_since;
    last_stop_time = Option.map shift sm.last_stop_time;
    last_start_time = Option.map shift sm.last_start_time;
    start_stop_history = shift_history sm.start_stop_history;
    start_count = sm.start_count;
    stop_count = sm.stop_count;
  }

  time_of-dump : (o : Option ℤ) → time_of m' w' (dump_time m w o) ≡ Option.map shift o
  unfolding time_of dump_time number
  time_of-dump none = refl
  time_of-dump (some t) = ap some (to_mono-to_wall t)

  times_of-dump :
      (h : List ℤ)
      → times_of m' w' (to_list (of_list (map (λ t. num (to_wall m w t)) h))) ≡ shift_history h
  unfolding times_of shift_history time_of number
  times_of-dump [] = refl
  times_of-dump (t ∷ rest) = rw (to_mono-to_wall t) (ground (arith, times_of-dump rest))

  load_entry-dump :
      (int_of : String → Option ℤ) (sm : ServerStateMachine)
      → load_entry int_of m' w' (dump_one m w sm) ≡ returned (carried sm)
  unfolding load_entry dump_one history_of get text count_of carried
  load_entry-dump int_of sm = simp (time_of-dump, times_of-dump, whole-times)

  pub load_entries-dump :
      (int_of : String → Option ℤ) (machines : List (String × ServerStateMachine))
      → load_entries int_of m' w'
          (fields (of_fields (map (λ s. (s.0, obj (dump_one m w s.1))) machines)))
        ≡ returned (map (λ s. (s.0, carried s.1)) machines)
  unfolding load_entries
  load_entries-dump int_of [] = refl
  load_entries-dump int_of ((name, sm) ∷ rest) =
      simp (load_entry-dump int_of sm, load_entries-dump int_of rest)

  -- What `save` wrote, `load` reads back within a day: one snapshot for each machine, under its name
  -- and in the same order, with every time as long before the load, by the new monotonic clock, as it was before the save, plus
  -- the wall-clock time between the two.
  pub load-save :
      (int_of : String → Option ℤ) (machines : List (String × ServerStateMachine))
      (store : StateStore)
      → store.enabled ≡ true
      → w ≤ℤ w'
      → (w' -ℤ w) ≤ℤ max_snapshot_age
      → load int_of m' w' (save m w machines none store)
        ≡ returned (map (λ s. (s.0, carried s.1)) machines)
  unfolding load save payload load_fields load_servers get number times
  load-save int_of machines store on h age =
      rw on (rw (fresh_within_a_day w w' h age) (load_entries-dump int_of machines))

  clock_adds_up : (t : ℤ) → m' -ℤ (m' -ℤ ((m -ℤ t) +ℤ (w' -ℤ w))) ≡ (m -ℤ t) +ℤ (w' -ℤ w)
  clock_adds_up t = omega int_laws

  -- A machine that is restored from what was carried over, on a server that still runs or still does
  -- not, is in the state that was saved, and has been idle for the time up to the save and the time
  -- since together.
  pub restart_keeps_idle_clock :
      (sm sm' : ServerStateMachine) (running : Bool) (t : ℤ)
      → is_running sm.state ≡ running
      → sm.idle_since ≡ some t
      → ((restore (carried sm) running sm').1 ≡ true)
        × ((restore (carried sm) running sm').0.state ≡ sm.state)
        × (idle_elapsed m' (restore (carried sm) running sm').0 ≡ idle_elapsed m sm +ℤ (w' -ℤ w))
  unfolding restore carried idle_elapsed shift
  restart_keeps_idle_clock sm sm' running t r s =
      ground (arith, of_value-value sm.state, clock_adds_up t)

  pub carried-IsSaneSnapshot :
      (sm : ServerStateMachine) → IsSane sm → IsSaneSnapshot sm.state (carried sm)
  unfolding carried
  carried-IsSaneSnapshot sm h = ground arith

  pub state-carried : (sm : ServerStateMachine) → (carried sm).state ≡ some (value sm.state)
  unfolding carried
  state-carried sm = refl
