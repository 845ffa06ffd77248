-- ===== src/Schema.antt =====
-- The types of the JSON documents that crafty_server_watcher writes for others: the status and the replies of
-- health_server.py, the file of state_store.py, the messages of webhook.py, and the packets of mc_protocol.py.
pub mod Documents
pub mod StateFile
use crafty_server_watcher.Common.{◌/◌, ◌*◌, ◌≡◌, refl, String, List, [], ◌∷◌, map, All, ℤ, times}
use crafty_server_watcher.Config.{second}
use crafty_server_watcher.Json.{
  Json, null, bool, num, str, arr, obj, Items, nil, cons, Fields, end, field, of_list, of_fields,
}

-- A text, a number, a whole number, null or a value, a list, a dictionary of values of one type, and an object
-- with certain keys in a certain order.
mutual
  pub data Schema : Type 0 where
    text number whole : Schema
    or_null list_of dictionary_of : Schema → Schema
    object : Shape → Schema

  pub data Shape : Type 0 where
    nothing : Shape
    key : String → Schema → Shape → Shape

-- The typing rules, each named after the schema. A whole number is so many whole ones in ticks.
mutual
  pub data HasSchema : Json → Schema → Type 0 where
    text : (s : String) → HasSchema (str s) Schema.text
    number : (n : ℤ) → HasSchema (num n) Schema.number
    whole : (n : ℤ) → HasSchema (num (times second n)) Schema.whole
    is_null : {s : Schema} → HasSchema null (Schema.or_null s)
    not_null : {s : Schema} {v : Json} → HasSchema v s → HasSchema v (Schema.or_null s)
    list : {s : Schema} {items : Items} → AllHave items s → HasSchema (arr items) (Schema.list_of s)
    dictionary :
        {s : Schema} {entries : Fields}
        → EachHas entries s
        → HasSchema (obj entries) (Schema.dictionary_of s)
    object :
        {shape : Shape} {entries : Fields}
        → HasShape entries shape
        → HasSchema (obj entries) (Schema.object shape)

  pub data AllHave : Items → Schema → Type 0 where
    no_items : {s : Schema} → AllHave nil s
    item :
        {s : Schema} {v : Json} {rest : Items}
        → HasSchema v s
        → AllHave rest s
        → AllHave (cons v rest) s

  pub data EachHas : Fields → Schema → Type 0 where
    no_entries : {s : Schema} → EachHas end s
    entry :
        {s : Schema} {k : String} {v : Json} {rest : Fields}
        → HasSchema v s
        → EachHas rest s
        → EachHas (field k v rest) s

  pub data HasShape : Fields → Shape → Type 0 where
    no_keys : HasShape end nothing
    keyed :
        {k : String} {s : Schema} {v : Json} {rest : Fields} {shape : Shape}
        → HasSchema v s
        → HasShape rest shape
        → HasShape (field k v rest) (key k s shape)
