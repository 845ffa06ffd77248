-- ===== src/Schema/StateFile.antt =====
-- The type of the state file of crafty_server_watcher/state_store.py, and what it gives to `load`.
use crafty_server_watcher.Common.{
  ◌≡◌, refl, String, not, Option, none, some, List, [], ◌∷◌, map, ℤ, times, if◌then◌else◌, if_rule,
  eq_ℤ,
}
use crafty_server_watcher.Config.{second}
use crafty_server_watcher.Json.{
  Json, num, obj, Fields, end, field, of_list, of_fields, fields, get, number,
}
use crafty_server_watcher.ServerState.{ServerStateMachine, Machines, Snapshot}
use crafty_server_watcher.StateStore.{
  schema_version, to_wall, dump_time, dump_one, StateStore, holds, Raising, returned, load_entry,
  load_entries, load_servers, load_fields, load, count_of, history_of, is_fresh, has_schema,
}
use crafty_server_watcher.StateStore
use crafty_server_watcher.Schema.{
  Schema, or_null, list_of, dictionary_of, nothing, key, HasSchema, is_null, not_null, list,
  dictionary, object, AllHave, no_items, item, EachHas, no_entries, entry, no_keys, keyed,
}

-- The file of the state store.
abbrev pub snapshot_schema : Schema
snapshot_schema = Schema.object (
    key "state" Schema.text (
      key "idle_since" (or_null Schema.number) (
        key "last_stop_time" (or_null Schema.number) (
          key "last_start_time" (or_null Schema.number) (
            key "start_stop_history" (list_of Schema.number)
              (key "start_count" Schema.whole (key "stop_count" Schema.whole nothing)))))))

abbrev pub file_schema : Schema
file_schema = Schema.object (
    key "schema" Schema.whole
      (key "saved_at" Schema.number (key "servers" (dictionary_of snapshot_schema) nothing)))

dump_time-HasSchema :
    (monotonic wall : ℤ) (t : Option ℤ)
    → HasSchema (dump_time monotonic wall t) (or_null Schema.number)
unfolding dump_time
dump_time-HasSchema monotonic wall none = is_null
dump_time-HasSchema monotonic wall (some t) = not_null (HasSchema.number _)

numbers-AllHave :
    (f : ℤ → ℤ) (times : List ℤ) → AllHave (of_list (map (λ t. num (f t)) times)) Schema.number
numbers-AllHave f [] = no_items
numbers-AllHave f (t ∷ rest) = item (HasSchema.number _) (numbers-AllHave f rest)

dump_one-HasSchema :
    (monotonic wall : ℤ) (sm : ServerStateMachine)
    → HasSchema (obj (dump_one monotonic wall sm)) snapshot_schema
unfolding dump_one
dump_one-HasSchema monotonic wall sm = object (
    keyed (HasSchema.text _) (
      keyed (dump_time-HasSchema monotonic wall sm.idle_since) (
        keyed (dump_time-HasSchema monotonic wall sm.last_stop_time) (
          keyed (dump_time-HasSchema monotonic wall sm.last_start_time) (
            keyed (list (numbers-AllHave (to_wall monotonic wall) sm.start_stop_history))
              (keyed (HasSchema.whole _) (keyed (HasSchema.whole _) no_keys)))))))

dumps-EachHas :
    (monotonic wall : ℤ) (machines : Machines)
    → EachHas
        (of_fields (map (λ s. (s.0, obj (dump_one monotonic wall s.1))) machines))
        snapshot_schema
dumps-EachHas monotonic wall [] = no_entries
dumps-EachHas monotonic wall ((name, sm) ∷ rest) =
    entry (dump_one-HasSchema monotonic wall sm) (dumps-EachHas monotonic wall rest)

-- What `save` writes has the type.
pub payload-HasSchema :
    (monotonic wall : ℤ) (machines : Machines)
    → HasSchema (StateStore.payload monotonic wall machines) file_schema
unfolding StateStore.payload
payload-HasSchema monotonic wall machines = object (
    keyed (HasSchema.whole _) (
      keyed (HasSchema.number _)
        (keyed (dictionary (dumps-EachHas monotonic wall machines)) no_keys)))

abbrev Loads {ℓ} : {A : Type ℓ} → Raising A → Type ℓ
Loads {A = A} r = (a : A) × (r ≡ returned a)

load_entry-Loads :
    (int_of : String → Option ℤ) (monotonic wall : ℤ) (entries : Fields)
    → HasSchema (obj entries) snapshot_schema
    → Loads (load_entry int_of monotonic wall entries)
unfolding load_entry count_of history_of get
load_entry-Loads int_of monotonic wall entries
      (object (
        keyed (HasSchema.text s) (
          keyed i (
            keyed p (
              keyed t (
                keyed
                  (list h)
                  (keyed (HasSchema.whole a) (keyed (HasSchema.whole b) no_keys)))))))) =
    (_, refl)

load_entries-Loads :
    (int_of : String → Option ℤ) (monotonic wall : ℤ) (entries : Fields)
    → EachHas entries snapshot_schema
    → Loads (load_entries int_of monotonic wall (fields entries))
unfolding load_entries
load_entries-Loads int_of monotonic wall end no_entries = ([], refl)
load_entries-Loads int_of monotonic wall (field name v rest) (entry (object h) others) =
    let (snapshot, e) = load_entry-Loads int_of monotonic wall _ (object h) in
    let (snapshots, q) = load_entries-Loads int_of monotonic wall rest others in
    ((name, snapshot) ∷ snapshots, rw (e, q) refl)

load_fields-Loads :
    (int_of : String → Option ℤ) (monotonic wall : ℤ) (entries : Fields)
    → HasSchema (obj entries) file_schema
    → Loads (load_fields int_of monotonic wall entries)
unfolding load_fields load_servers get number
load_fields-Loads int_of monotonic wall entries
      (object (
        keyed (HasSchema.whole version) (
          keyed (HasSchema.number saved_at) (keyed (dictionary {entries = servers} es) no_keys)))) =
    if_rule Loads (not (eq_ℤ (times second version) (times second schema_version))) (returned [])
      (if is_fresh wall saved_at
        then load_servers int_of monotonic wall (obj servers)
        else returned [])
      ([], refl)
      (if_rule Loads (is_fresh wall saved_at) (load_servers int_of monotonic wall (obj servers))
        (returned []) (load_entries-Loads int_of monotonic wall servers es) ([], refl))

-- A file that has the type of what `save` writes never makes `load` raise, whatever its version, its age and its
-- entries are, and whatever the clocks read.
pub typed_file_loads :
    (int_of : String → Option ℤ) (monotonic wall : ℤ) (v : Json) (store : StateStore)
    → HasSchema v file_schema
    → store.file ≡ holds v
    → (snapshots : List (String × Snapshot)) × (load int_of monotonic wall store
        ≡ returned snapshots)
unfolding load
typed_file_loads int_of monotonic wall v store (object h) e =
    rw e (load_fields-Loads int_of monotonic wall _ (object h))
