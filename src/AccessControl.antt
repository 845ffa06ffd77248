-- ===== src/AccessControl.antt =====
-- crafty_server_watcher/access_control.py: who may wake a server. `str.casefold` is a parameter.
pub mod Decision
use crafty_server_watcher.Common.{
  ◌≡◌, String, Bool, true, false, not, ◌&&◌, Option, none, some, List, [], ◌∷◌, map, if◌then◌else◌,
  ℤ, eq_ℤ, str_eq,
}
use crafty_server_watcher.Config.{AccessConfig}
use crafty_server_watcher.Json.{Json, arr, obj, Items, nil, cons, get, text}

-- The problems that `_log_problem` is told of, with the text of the exception.
pub data Problem : Type 0 where
  no_file not_a_list : Problem
  cannot_stat cannot_read : String → Problem

abbrev pub same_problem : Problem → Problem → Bool
same_problem no_file no_file = true
same_problem not_a_list not_a_list = true
same_problem (cannot_stat e) (cannot_stat e') = str_eq e e'
same_problem (cannot_read e) (cannot_read e') = str_eq e e'
same_problem _ _ = false

-- What reading the file gives: an OSError or a JSONDecodeError, a UnicodeDecodeError, or a value.
pub data Content : Type 0 where
  unreadable : String → Content
  not_utf8 : Content
  holds : Json → Content

-- The whitelist file as the process sees it: its `st_mtime`, or the OSError of `stat`.
pub data File : Type 0 where
  no_stat : String → File
  file : ℤ → Content → File

-- The log is newest first.
pub record AccessController : Type 0 where
  pub cfg : AccessConfig
  pub names : List String
  pub mtime : Option ℤ
  pub extra : List String
  pub last_error : Option Problem
  pub logged : List Problem

abbrev pub has : String → List String → Bool
has name [] = false
has name (n ∷ rest) = if str_eq name n then true else has name rest

-- `AccessController.__init__`, and `update` with the log of before.
unfoldable pub configured : (String → String) → AccessConfig → List Problem → AccessController
configured casefold cfg logged = record {
  cfg = cfg;
  names = [];
  mtime = none;
  extra = map casefold cfg.allowed_players;
  last_error = none;
  logged = logged;
}

unfoldable pub update : (String → String) → AccessConfig → AccessController → AccessController
unfolding configured
update casefold cfg c = configured casefold cfg c.logged

unfoldable pub enabled : AccessController → Bool
enabled c = str_eq c.cfg.mode "whitelist"

-- `_log_problem`
unfoldable pub log_problem : Problem → AccessController → AccessController
log_problem p c =
    let c' = record c { last_error = some p; logged = p ∷ c.logged } in
    elim c.last_error [ none ↦ c' | some last ↦ if same_problem p last then c else c' ]

-- `entry["name"].casefold()` of the entries that are objects with a text as their name.
entry_name : Json → Option String
unfolding get text
entry_name (obj fields) = text (get fields "name")
entry_name _ = none

unfoldable pub names_of : (String → String) → Items → List String
unfolding entry_name
names_of casefold nil = []
names_of casefold (cons v rest) =
    let others = names_of casefold rest in
    elim (entry_name v) [ none ↦ others | some name ↦ casefold name ∷ others ]

-- What `_load_names` returns, or that an exception leaves it.
pub data Loaded : Type 0 where
  loaded : List String → Loaded
  unavailable raised : Loaded

-- The file's value, once it was parsed.
unfoldable pub keep_names :
    (String → String) → ℤ → Json → AccessController → AccessController × Loaded
keep_names casefold t (arr items) c =
    let names = names_of casefold items in
    (record c { names = names; mtime = some t; last_error = none }, loaded names)
keep_names casefold t _ c = (log_problem not_a_list c, unavailable)

read_names : (String → String) → ℤ → Content → AccessController → AccessController × Loaded
unfolding keep_names
read_names casefold t (unreadable e) c = (log_problem (cannot_read e) c, unavailable)
read_names casefold t not_utf8 c = (c, raised)
read_names casefold t (holds v) c = keep_names casefold t v c

abbrev pub is_cached : ℤ → Option ℤ → Bool
is_cached t none = false
is_cached t (some t') = eq_ℤ t t'

look_up : (String → String) → File → AccessController → AccessController × Loaded
unfolding read_names
look_up casefold (no_stat e) c = (log_problem (cannot_stat e) c, unavailable)
look_up casefold (file t content) c =
    if is_cached t c.mtime then (c, loaded c.names) else read_names casefold t content c

unfoldable pub load_names : (String → String) → File → AccessController → AccessController × Loaded
unfolding look_up
load_names casefold f c =
    if str_eq c.cfg.whitelist_file ""
    then (log_problem no_file c, unavailable)
    else look_up casefold f c

verdict : String → Loaded → Option Bool
verdict wanted (loaded names) = some (has wanted names)
verdict wanted unavailable = some true
verdict wanted raised = none

-- `is_allowed`: the answer is `none` when an exception leaves it.
unfoldable pub is_allowed :
    (String → String) → File → String → AccessController → AccessController × Option Bool
unfolding verdict enabled load_names
is_allowed casefold f player_name c =
    let wanted = casefold player_name in
    let (c', names) = load_names casefold f c in
    if not (enabled c)
    then (c, some true)
    else if has wanted c.extra
    then (c, some true)
    else (c', verdict wanted names)
