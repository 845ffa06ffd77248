-- ===== src/Webhook.antt =====
-- crafty_server_watcher/webhook.py: how often a refused login is reported. The two dictionaries are
-- keyed by the server's name, and what they hold for one server is its record here.
pub mod Denied
pub mod Message
use crafty_server_watcher.Common.{
  ℕ, zero, suc, ◌+◌, Bool, true, false, Option, none, some, List, [], ◌∷◌, if◌then◌else◌, ℤ, pos,
  ◌-ℤ◌, ltb_ℤ,
}
use crafty_server_watcher.Config.{minutes}

-- `max(0, denied_cooldown_minutes) * 60`, in ticks.
unfoldable pub denied_cooldown : ℤ → ℤ
denied_cooldown m = if ltb_ℤ m (pos 0) then pos 0 else minutes m

-- `_denied_last` and `_denied_suppressed` of one server: 0 when it has no entry.
pub record Denials : Type 0 where
  pub last : Option ℤ
  pub suppressed : ℕ

abbrev pub is_quiet : ℤ → ℤ → Option ℤ → Bool
is_quiet cooldown now none = false
is_quiet cooldown now (some last) = ltb_ℤ (now -ℤ last) cooldown

-- `notify_denied`, with the count of swallowed attempts that the message reports, if one is sent.
unfoldable pub notify_denied : ℤ → ℤ → Denials → Denials × Option ℕ
notify_denied cooldown now d =
    if is_quiet cooldown now d.last
    then (record d { suppressed = suc d.suppressed }, none)
    else (record { last = some now; suppressed = 0 }, some d.suppressed)
