-- ===== src/Values.antt =====
-- What Python's `str`, `int` and `dict.get` make of values that `json.loads` or `yaml.safe_load` returns.
use crafty_server_watcher.Common.{
  String, Bool, true, false, Option, none, some, if◌then◌else◌, ℤ, pos, str_eq,
}
use crafty_server_watcher.Json.{Json, bool, num, str, obj, Fields, end, field, whole}

-- `str(value)` of what is no text, `int(text)` where it does not raise, and `text.lower()`.
pub record Python : Type 0 where
  pub str_of : Json → String
  pub int_of : String → Option ℤ
  pub lower : String → String

-- What has keys.
abbrev pub is_mapping : Json → Bool
is_mapping (obj _) = true
is_mapping _ = false

-- `data.get(key)` where a missing key is told from `None`.
unfoldable pub look_up : Fields → String → Option Json
look_up end key = none
look_up (field k v rest) key = if str_eq k key then some v else look_up rest key

module _ (py : Python) where
  unfoldable pub str_value : Json → String
  str_value (str s) = s
  str_value v = py.str_of v

  -- `int(value)`: a text that is no number is a ValueError, and a container a TypeError.
  unfoldable pub int_value : Json → Option ℤ
  int_value (num n) = some (whole n)
  int_value (bool true) = some (pos 1)
  int_value (bool false) = some (pos 0)
  int_value (str s) = py.int_of s
  int_value _ = none
