-- ===== src/Json.antt =====
-- The values that `json.loads` returns, and what the program asks of them.
use crafty_server_watcher.Common.{
  suc, ◌/◌, ◌≡◌, String, Bool, true, false, not, Option, none, some, List, [], ◌∷◌, if◌then◌else◌,
  ℤ, pos, negsuc, sub_ℕ, eq_ℤ, times, str_eq, arith,
}
use crafty_server_watcher.Config.{second}

-- A number stands for its value in ticks: `num (pos second)` is 1. An object lists each key once.
mutual
  pub data Json : Type 0 where
    null : Json
    bool : Bool → Json
    num : ℤ → Json
    str : String → Json
    arr : Items → Json
    obj : Fields → Json

  pub data Items : Type 0 where
    nil : Items
    cons : Json → Items → Items

  pub data Fields : Type 0 where
    end : Fields
    field : String → Json → Fields → Fields

-- `d.get(key)`: a missing key is `None`, as JSON's `null` is.
unfoldable pub get : Fields → String → Json
get end key = null
get (field k v rest) key = if str_eq k key then v else get rest key

abbrev pub to_list : Items → List Json
to_list nil = []
to_list (cons v rest) = v ∷ to_list rest

abbrev pub of_list : List Json → Items
of_list [] = nil
of_list (v ∷ rest) = cons v (of_list rest)

abbrev pub fields : Fields → List (String × Json)
fields end = []
fields (field k v rest) = (k, v) ∷ fields rest

abbrev pub of_fields : List (String × Json) → Fields
of_fields [] = end
of_fields ((k, v) ∷ rest) = field k v (of_fields rest)

-- `bool(value)`
unfoldable pub is_true : Json → Bool
is_true null = false
is_true (bool b) = b
is_true (num n) = not (eq_ℤ n (pos 0))
is_true (str s) = not (str_eq s "")
is_true (arr nil) = false
is_true (arr (cons _ _)) = true
is_true (obj end) = false
is_true (obj (field _ _ _)) = true

-- `isinstance(value, (int, float))` and the value: `True` and `False` are numbers too.
unfoldable pub number : Json → Option ℤ
number (num n) = some n
number (bool true) = some (pos second)
number (bool false) = some (pos 0)
number _ = none

-- `isinstance(value, str)` and the value.
unfoldable pub text : Json → Option String
text (str s) = some s
text _ = none

-- `int(x)` of a number cuts its decimals off.
unfoldable pub whole : ℤ → ℤ
whole (pos n) = pos (n / second)
whole (negsuc n) = sub_ℕ 0 (suc n / second)

-- A whole number as JSON has it.
abbrev pub int : ℤ → Json
int n = num (times second n)

pub whole-times : (n : ℤ) → whole (times second n) ≡ n
unfolding whole times
whole-times n = ground arith
