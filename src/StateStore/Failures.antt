-- ===== src/StateStore/Failures.antt =====
-- Files that `load` does not accept.
use crafty_server_watcher.Common.{◌≡◌, String, Bool, true, false, Option, some, ℤ, arith}
use crafty_server_watcher.Json.{Json, obj, Fields, get, number, is_true}
use crafty_server_watcher.StateStore.{
  StateStore, holds, raised, load_servers, load_fields, load, has_schema, is_fresh,
}

abbrev pub is_object : Json → Bool
is_object (obj _) = true
is_object _ = false

-- A file with the right schema and a fresh time whose "servers" is a value other than an object, and
-- not empty, makes `load` raise: `.items()` is called on it.
pub load_raises :
    (int_of : String → Option ℤ) (monotonic wall saved_at : ℤ) (raw : Fields) (store : StateStore)
    → store.file ≡ holds (obj raw)
    → has_schema (get raw "schema") ≡ true
    → number (get raw "saved_at") ≡ some saved_at
    → is_fresh wall saved_at ≡ true
    → is_true (get raw "servers") ≡ true
    → is_object (get raw "servers") ≡ false
    → load int_of monotonic wall store ≡ raised
unfolding load load_fields load_servers
load_raises int_of monotonic wall saved_at raw store file schema number fresh truthy other =
    ground arith
