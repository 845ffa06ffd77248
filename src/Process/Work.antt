-- ===== src/Process/Work.antt =====
-- How many turns the tasks of crafty_server_watcher/__main__.py still need to end.
use crafty_server_watcher.Common.{
  ℕ, suc, ◌+◌, ◌*◌, ◌≤◌, ◌≡◌, refl, String, Bool, true, false, List, [], ◌∷◌, length, count_if,
  arith,
}
use crafty_server_watcher.Health.{Slots}
use crafty_server_watcher.Managers.{stop_all}
use crafty_server_watcher.IdleMonitor.{Watched}
use crafty_server_watcher.Service.{each, to_slots}
use crafty_server_watcher.Process.{
  Monitor, polling, ensuring, asking, monitor_pause, monitor_end, Task, waiting, ended, Server,
  to_bind, serving, server_end, server_failed, Reloader, unbegun, attentive, reloader_end,
  reloader_failed, Loop, ensuring_berths, berth_pause, berth_end, Process, is_over, at_key, keys,
}
use crafty_server_watcher.Process.Tasks.{
  Label, monitor_turn, proxy_turn, health_turn, bedrock_turn, reloader_turn,
}

-- How many turns each task still needs: the monitor two for each server to be polled and one for each listener.
abbrev pub monitor_work : ℕ → Monitor → ℕ
monitor_work slots (polling rest) = 2 * length rest + slots + 2
monitor_work slots (asking name d rest) = 2 * length rest + slots + 3
monitor_work slots (ensuring rest) = suc (length rest)
monitor_work slots monitor_pause = 1
monitor_work slots monitor_end = 0

abbrev pub task_work : Task → ℕ
task_work waiting = 1
task_work ended = 0

abbrev pub server_work : Server → ℕ
server_work to_bind = 1
server_work serving = 1
server_work server_end = 0
server_work server_failed = 0

abbrev pub reloader_work : Reloader → ℕ
reloader_work unbegun = 1
reloader_work attentive = 1
reloader_work reloader_end = 0
reloader_work reloader_failed = 0

abbrev pub loop_work : Loop → ℕ
loop_work (ensuring_berths rest) = length rest + 2
loop_work berth_pause = 1
loop_work berth_end = 0

abbrev pub is_monitor_turn : Label → Bool
is_monitor_turn (monitor_turn _) = true
is_monitor_turn _ = false

abbrev pub is_proxy_turn : Label → Bool
is_proxy_turn proxy_turn = true
is_proxy_turn _ = false

abbrev pub is_reloader_turn : Label → Bool
is_reloader_turn (reloader_turn _) = true
is_reloader_turn _ = false

abbrev pub is_health_turn : Label → Bool
is_health_turn (health_turn _) = true
is_health_turn _ = false

abbrev pub is_bedrock_turn : Label → Bool
is_bedrock_turn bedrock_turn = true
is_bedrock_turn _ = false

-- The turns in a sequence are as many as the tasks still need.
pub record HasTurns (ls : List Label) (p : Process) : Type 0 where
  pub monitor : monitor_work (length p.slots) p.monitor ≤ count_if is_monitor_turn ls
  pub proxy : task_work p.proxy ≤ count_if is_proxy_turn ls
  pub reloader : reloader_work p.reloader ≤ count_if is_reloader_turn ls
  pub health : server_work p.health ≤ count_if is_health_turn ls
  pub bedrock : loop_work p.bedrock ≤ count_if is_bedrock_turn ls

pub no_turns : (p : Process) → HasTurns [] p → is_over p ≡ true
unfolding count_if is_over
no_turns p h = ground (arith, h.monitor, h.proxy, h.reloader, h.health, h.bedrock)

pub length-keys {ℓ} :
    {V : Type ℓ} (entries : List (String × V)) → length (keys entries) ≡ length entries
length-keys [] = refl
length-keys ((n, v) ∷ rest) = omega (arith, length-keys rest)

pub length-at_key {ℓ} :
    {V : Type ℓ} (name : String) (f : V → V) (entries : List (String × V))
    → length (at_key name f entries) ≡ length entries
unfolding at_key
length-at_key name f [] = refl
length-at_key name f ((n, v) ∷ rest) = ground (arith, length-at_key name f rest)

length-each {ℓ κ} :
    {V : Type ℓ} {W : Type κ} (f : String → V → W) (entries : List (String × V))
    → length (each f entries) ≡ length entries
unfolding each
length-each f [] = refl
length-each f ((n, v) ∷ rest) = omega (arith, length-each f rest)

pub length-to_slots :
    (servers : List (String × Watched)) (slots : Slots)
    → length (to_slots servers slots) ≡ length slots
unfolding to_slots
length-to_slots servers slots = length-each _ slots

pub length-stop_all : (slots : Slots) → length (stop_all slots) ≡ length slots
unfolding stop_all
length-stop_all [] = refl
length-stop_all ((n, v) ∷ rest) = omega (arith, length-stop_all rest)
