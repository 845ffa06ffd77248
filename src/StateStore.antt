-- ===== src/StateStore.antt =====
-- crafty_server_watcher/state_store.py: snapshots that outlive the process.
-- `monotonic` and `wall` are the readings of `time.monotonic()` and `time.time()`. The text of the file is the
-- JSON value that it holds: the encoding itself is Python's `json`.
pub mod RoundTrip
pub mod Failures
pub mod Atomic
use crafty_server_watcher.Common.{
  ℕ, ◌*◌, String, Bool, true, false, not, ◌&&◌, ◌||◌, Option, none, some, List, [], ◌∷◌, map,
  if◌then◌else◌, ℤ, pos, ◌-ℤ◌, ltb_ℤ, eq_ℤ, times,
}
use mathlib.Core.Option
use crafty_server_watcher.Config.{second}
use crafty_server_watcher.State.{value}
use crafty_server_watcher.ServerState.{ServerStateMachine, Snapshot}
use crafty_server_watcher.Json.{
  Json, null, bool, num, str, arr, obj, Items, nil, cons, Fields, end, field, get, to_list, of_list,
  fields, of_fields, is_true, number, text, whole, int,
}

-- `SCHEMA_VERSION` and `MAX_SNAPSHOT_AGE_SECONDS`.
abbrev pub schema_version : ℤ
schema_version = pos 1

abbrev pub max_snapshot_age : ℤ
max_snapshot_age = pos (24 * 3600 * second)

-- `to_wall` of a reading, and `to_mono` of a time.
unfoldable pub to_wall : ℤ → ℤ → ℤ → ℤ
to_wall monotonic wall t = wall -ℤ (monotonic -ℤ t)

unfoldable pub to_mono : ℤ → ℤ → ℤ → ℤ
to_mono monotonic wall t = monotonic -ℤ (wall -ℤ t)

unfoldable pub dump_time : ℤ → ℤ → Option ℤ → Json
unfolding to_wall
dump_time monotonic wall none = null
dump_time monotonic wall (some t) = num (to_wall monotonic wall t)

-- `_dump_one`
unfoldable pub dump_one : ℤ → ℤ → ServerStateMachine → Fields
unfolding dump_time to_wall
dump_one monotonic wall sm = field "state" (str (value sm.state)) (
    field "idle_since" (dump_time monotonic wall sm.idle_since) (
      field "last_stop_time" (dump_time monotonic wall sm.last_stop_time) (
        field "last_start_time" (dump_time monotonic wall sm.last_start_time) (
          field "start_stop_history"
            (arr (of_list (map (λ t. num (to_wall monotonic wall t)) sm.start_stop_history)))
            (field "start_count" (int sm.start_count)
              (field "stop_count" (int sm.stop_count) end))))))

-- The `payload` of `save`.
unfoldable pub payload : ℤ → ℤ → List (String × ServerStateMachine) → Json
payload monotonic wall machines = obj (
    field "schema" (int schema_version) (
      field "saved_at" (num wall) (
        field "servers"
          (obj (of_fields (map (λ s. (s.0, obj (dump_one monotonic wall s.1))) machines))) end)))

-- What reading the file gives: nothing is there, it cannot be read or parsed, or a value.
pub data File : Type 0 where
  missing unreadable : File
  holds : Json → File

-- The store, with the file that it names and the temporary one beside it.
pub record StateStore : Type 0 where
  pub enabled : Bool
  pub file : File
  pub temp : Option File

-- The calls of `_write_atomic`, in order. A temporary file that is still being written holds no value.
pub data Stage : Type 0 where
  make_directory make_temp dump sync replace : Stage

-- `os.replace`: the file is what the temporary file was, which is there no more.
replace_file : Option File → StateStore → StateStore
replace_file none store = store
replace_file (some written) store = record store { file = written; temp = none }

unfoldable pub perform : Json → Stage → StateStore → StateStore
unfolding replace_file
perform value make_directory store = store
perform value make_temp store = record store { temp = some unreadable }
perform value dump store = record store { temp = some (holds value) }
perform value sync store = store
perform value replace store = replace_file store.temp store

unfoldable pub perform_all : Json → List Stage → StateStore → StateStore
unfolding perform
perform_all value [] store = store
perform_all value (stage ∷ rest) store = perform_all value rest (perform value stage store)

-- The calls that `_write_atomic` makes, in its order.
abbrev pub calls : List Stage
calls = make_directory ∷ make_temp ∷ dump ∷ sync ∷ replace ∷ []

-- The stages up to the one that raises, if one does: a stage that raises has no effect on the file,
-- and the handler then unlinks the temporary one, which is there once `mkstemp` has returned.
unfoldable pub write_atomic : Json → Option Stage → StateStore → StateStore × Bool
unfolding perform perform_all
write_atomic value none store = (perform_all value calls store, true)
write_atomic value (some make_directory) store = (store, false)
write_atomic value (some make_temp) store = (perform value make_directory store, false)
write_atomic value (some dump) store =
    (record (perform value make_temp store) { temp = none }, false)
write_atomic value (some sync) store =
    (record (perform value dump (perform value make_temp store)) { temp = none }, false)
write_atomic value (some replace) store = (
  record (perform value sync (perform value dump (perform value make_temp store))) { temp = none },
  false,
)

-- `save`, by the stage that raises an OSError, if one does: it turns the store off.
unfoldable pub save :
    ℤ → ℤ → List (String × ServerStateMachine) → Option Stage → StateStore → StateStore
unfolding write_atomic
save monotonic wall machines fault store =
    if not store.enabled
    then store
    else let (store', written) = write_atomic (payload monotonic wall machines) fault store in
      if written then store' else record store' { enabled = false }

-- Python code that may raise.
pub data Raising {ℓ} (A : Type ℓ) : Type ℓ where
  returned : A → Raising A
  raised : Raising A

infixl 5 ◌>>=◌
abbrev pub ◌>>=◌ {ℓ κ} : {A : Type ℓ} {B : Type κ} → Raising A → (A → Raising B) → Raising B
returned a >>= f = f a
raised >>= f = raised

-- `int(entry.get(key) or 0)`: a text may or may not be one that `int` reads, which is `int_of`.
unfoldable pub count_of : (String → Option ℤ) → Json → Raising ℤ
count_of int_of null = returned (pos 0)
count_of int_of (bool true) = returned (pos 1)
count_of int_of (bool false) = returned (pos 0)
count_of int_of (num n) = returned (whole n)
count_of int_of (str s) =
    if is_true (str s)
    then elim (int_of s) [ none ↦ raised | some n ↦ returned n ]
    else returned (pos 0)
count_of int_of v = if is_true v then raised else returned (pos 0)

-- `to_mono` in `load`: what is no number is `None`.
unfoldable pub time_of : ℤ → ℤ → Json → Option ℤ
time_of monotonic wall v = Option.map (to_mono monotonic wall) (number v)

-- `[ts for ts in (to_mono(v) for v in …) if ts]`
unfoldable pub times_of : ℤ → ℤ → List Json → List ℤ
unfolding time_of
times_of monotonic wall [] = []
times_of monotonic wall (v ∷ rest) =
    let others = times_of monotonic wall rest in
    elim (time_of monotonic wall v) [
      | none ↦ others
      | some t ↦ if eq_ℤ t (pos 0) then others else t ∷ others
    ]

-- `entry.get("start_stop_history") or []`, read item by item: the items of a text or of an object are texts,
-- which are no times; a number cannot be iterated.
unfoldable pub history_of : ℤ → ℤ → Json → Raising (List ℤ)
unfolding times_of
history_of monotonic wall (arr items) = returned (times_of monotonic wall (to_list items))
history_of monotonic wall (num n) = if is_true (num n) then raised else returned []
history_of monotonic wall (bool b) = if b then raised else returned []
history_of monotonic wall _ = returned []

unfoldable pub load_entry : (String → Option ℤ) → ℤ → ℤ → Fields → Raising Snapshot
unfolding history_of count_of time_of
load_entry int_of monotonic wall entry = do
  history ← history_of monotonic wall (get entry "start_stop_history")
  starts ← count_of int_of (get entry "start_count")
  stops ← count_of int_of (get entry "stop_count")
  returned (record {
    state = text (get entry "state");
    idle_since = time_of monotonic wall (get entry "idle_since");
    last_stop_time = time_of monotonic wall (get entry "last_stop_time");
    last_start_time = time_of monotonic wall (get entry "last_start_time");
    start_stop_history = history;
    start_count = starts;
    stop_count = stops;
  })

-- The loop over `raw.get("servers")`: an entry that is no object is skipped.
unfoldable pub load_entries :
    (String → Option ℤ) → ℤ → ℤ → List (String × Json) → Raising (List (String × Snapshot))
unfolding load_entry
load_entries int_of monotonic wall [] = returned []
load_entries int_of monotonic wall ((name, obj entry) ∷ rest) = do
  snapshot ← load_entry int_of monotonic wall entry
  others ← load_entries int_of monotonic wall rest
  returned ((name, snapshot) ∷ others)
load_entries int_of monotonic wall ((name, _) ∷ rest) = load_entries int_of monotonic wall rest

-- `(raw.get("servers") or {}).items()`
unfoldable pub load_servers :
    (String → Option ℤ) → ℤ → ℤ → Json → Raising (List (String × Snapshot))
unfolding load_entries
load_servers int_of monotonic wall (obj servers) =
    load_entries int_of monotonic wall (fields servers)
load_servers int_of monotonic wall v = if is_true v then raised else returned []

-- `raw.get("schema") != SCHEMA_VERSION`, told by the value: `True` equals 1.
abbrev pub has_schema : Json → Bool
has_schema v = elim (number v) [ none ↦ false | some n ↦ eq_ℤ n (times second schema_version) ]

abbrev pub is_fresh : ℤ → ℤ → Bool
is_fresh wall saved_at =
    let age = wall -ℤ saved_at in not (ltb_ℤ age (pos 0) || ltb_ℤ max_snapshot_age age)

unfoldable pub load_fields :
    (String → Option ℤ) → ℤ → ℤ → Fields → Raising (List (String × Snapshot))
unfolding load_servers
load_fields int_of monotonic wall raw =
    if not (has_schema (get raw "schema"))
    then returned []
    else elim (number (get raw "saved_at")) [
      | none ↦ returned []
      | some saved_at ↦
          if is_fresh wall saved_at
          then load_servers int_of monotonic wall (get raw "servers")
          else returned []
    ]

-- `load`: an empty mapping where there is nothing to restore.
unfoldable pub load : (String → Option ℤ) → ℤ → ℤ → StateStore → Raising (List (String × Snapshot))
unfolding load_fields
load int_of monotonic wall store = elim store.file [
  | holds (obj raw) ↦ load_fields int_of monotonic wall raw
  | _ ↦ returned []
]
