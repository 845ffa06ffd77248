-- ===== src/Loading.antt =====
-- crafty_server_watcher/config.py: `_get`, sections, and the two ways in which loading fails.
use crafty_server_watcher.Common.{String, Bool, true, false, none, some, ℤ}
use crafty_server_watcher.Json.{Json, null, obj, Fields, end, get, is_true}
use crafty_server_watcher.Values.{Python, look_up, str_value, int_value}

-- Loading may raise ConfigError, or another exception.
pub data Loading {ℓ} (A : Type ℓ) : Type ℓ where
  loaded : A → Loading A
  config_error raised : Loading A

infixl 5 ◌>>=◌ ◌>>◌
abbrev pub ◌>>=◌ {ℓ κ} : {A : Type ℓ} {B : Type κ} → Loading A → (A → Loading B) → Loading B
loaded a >>= f = f a
config_error >>= f = config_error
raised >>= f = raised

abbrev pub ◌>>◌ {ℓ} : {B : Type ℓ} → Loading (Unit {0}) → Loading B → Loading B
m >> k = m >>= λ _. k

-- `if …: raise ConfigError`
abbrev pub check : Bool → Loading (Unit {0})
check true = loaded tt
check false = config_error

-- `raw.get(key, {})` as the argument of a loader, whose first `_get` raises AttributeError unless it is a mapping.
unfoldable pub section : Fields → String → Loading Fields
unfolding look_up
section raw key = elim (look_up raw key) [
  | none ↦ loaded end
  | some (obj fields) ↦ loaded fields
  | some _ ↦ raised
]

-- A loader on the section of a key.
unfoldable pub load_section {ℓ} : {A : Type ℓ} → (Fields → Loading A) → Fields → String → Loading A
load_section load raw key = section raw key >>= load

module _ (py : Python) where
  -- `_get(data, key, str, default)`, with `int` and `bool` for the type.
  as_str : String → Json → String
  unfolding str_value
  as_str default null = default
  as_str default v = str_value py v

  unfoldable pub get_str : Fields → String → String → String
  unfolding as_str
  get_str raw key default = as_str default (get raw key)

  as_int : ℤ → Json → Loading ℤ
  unfolding int_value
  as_int default null = loaded default
  as_int default v = elim (int_value py v) [ none ↦ config_error | some n ↦ loaded n ]

  unfoldable pub get_int : Fields → String → ℤ → Loading ℤ
  unfolding as_int
  get_int raw key default = as_int default (get raw key)

  as_bool : Bool → Json → Bool
  as_bool default null = default
  as_bool default v = is_true v

  unfoldable pub get_bool : Fields → String → Bool → Bool
  unfolding as_bool
  get_bool raw key default = as_bool default (get raw key)
