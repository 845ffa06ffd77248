-- ===== src/AccessControl/Decision.antt =====
-- Which players are refused, whatever the cache holds, and what is logged.
use crafty_server_watcher.Common.{
  ◌≡◌, ◌↔◌, String, Bool, true, false, not, Option, none, some, List, ℤ, str_eq, arith,
}
use crafty_server_watcher.Json.{arr}
use crafty_server_watcher.AccessControl.{
  Content, unreadable, not_utf8, holds, File, no_stat, file, AccessController, has, enabled,
  log_problem, keep_names, names_of, is_cached, load_names, is_allowed,
}

module _ (casefold : String → String) where
  -- The names of a content that is a list.
  abbrev pub listed : Content → Option (List String)
  listed (holds (arr items)) = some (names_of casefold items)
  listed _ = none

  -- The names that a file has, when it can be used.
  abbrev pub on_file : File → Option (List String)
  on_file (file t content) = listed content
  on_file _ = none

  -- The names are there, and this one is not among them.
  abbrev pub is_missing : String → Option (List String) → Bool
  is_missing wanted none = false
  is_missing wanted (some names) = not (has wanted names)

  -- What is cached for the time of the file is what the file has.
  abbrev pub IsCurrent : File → AccessController → Type 0
  IsCurrent (file t content) c = is_cached t c.mtime ≡ true → listed content ≡ some c.names
  IsCurrent (no_stat e) c = Unit {0}

  -- Whitelisting is on, and the player is neither among the extra ones nor on the file, which can be
  -- used.
  pub record IsRefused (f : File) (player : String) (c : AccessController) : Type 0 where
    pub on : enabled c ≡ true
    pub has_file : str_eq c.cfg.whitelist_file "" ≡ false
    pub not_extra : has (casefold player) c.extra ≡ false
    pub not_listed : is_missing (casefold player) (on_file f) ≡ true

  -- A player is refused exactly when whitelisting is on, a file is configured and can be read as a
  -- list, and the name is neither among the allowed players nor on the list, whatever was cached for
  -- another time of the file.
  pub denied_exactly_when-IsRefused :
      (f : File) (player : String) (c : AccessController)
      → IsCurrent f c
      → ((is_allowed casefold f player c).1 ≡ some false) ↔ IsRefused f player c
  unfolding is_allowed enabled load_names keep_names
  denied_exactly_when-IsRefused (no_stat e) player c h = ground arith
  denied_exactly_when-IsRefused (file t (unreadable e)) player c h = ground arith
  denied_exactly_when-IsRefused (file t not_utf8) player c h = ground arith
  denied_exactly_when-IsRefused (file t (holds v)) player c h = ground arith

  -- A check keeps the cache current.
  pub is_allowed-IsCurrent :
      (f : File) (player : String) (c : AccessController)
      → IsCurrent f c
      → IsCurrent f (is_allowed casefold f player c).0
  unfolding is_allowed load_names keep_names log_problem
  is_allowed-IsCurrent (no_stat e) player c h = tt
  is_allowed-IsCurrent (file t content) player c h = ground arith

  -- While the file is not UTF-8 and was not read at its present time, a login that is not of an allowed
  -- player gets no answer, and the check leaves the controller as it was, so that the next one gets
  -- none either.
  pub bad_encoding_raises :
      (t : ℤ) (player : String) (c : AccessController)
      → enabled c ≡ true
      → str_eq c.cfg.whitelist_file "" ≡ false
      → has (casefold player) c.extra ≡ false
      → is_cached t c.mtime ≡ false
      → is_allowed casefold (file t not_utf8) player c ≡ (c, none)
  unfolding is_allowed enabled load_names
  bad_encoding_raises t player c on path extra cached = ground arith
