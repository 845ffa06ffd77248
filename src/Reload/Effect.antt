-- ===== src/Reload/Effect.antt =====
-- What a reload changes, and what it leaves.
use crafty_server_watcher.Common.{
  ◌≡◌, refl, String, false, none, some, List, [], ◌∷◌, str_eq, eq_iff, Bool-cases, Option-cases,
  inl, inr, ◌∙◌, ℤ, map, arith, All,
}
use crafty_server_watcher.Config.{CraftyConfig, ServerConfig, AppConfig}
use crafty_server_watcher.ServerState.{ServerStateMachine}
use crafty_server_watcher.ServerState.Invariant.{IsSane}
use crafty_server_watcher.AccessControl.{AccessController, configured, update}
use crafty_server_watcher.Values.{is_mapping, Python, look_up}
use crafty_server_watcher.Loading.{loaded, load_section}
use crafty_server_watcher.Sections.{load_crafty}
use crafty_server_watcher.ConfigLoader.{parsed, load_server_table, load_config}
use crafty_server_watcher.ConfigLoader.Failures.{empty_section_raises}
use crafty_server_watcher.Json.{Json, obj, Fields, get}
use mathlib.Core.Option.{some_inj}
use crafty_server_watcher.Reload.{
  Watcher, find, take_over, reload_machine, reload_machines, reload_access, update_found, apply,
  on_reload,
}

find-reload_machines :
    (new : AppConfig) (name : String) (machines : List (String × ServerStateMachine))
    (sm : ServerStateMachine)
    → find name machines ≡ some sm
    → find name (reload_machines new machines) ≡ some (reload_machine new name sm)
unfolding find reload_machines
find-reload_machines new name [] sm h = cc
find-reload_machines new name ((n, m) ∷ rest) sm h = elim (Bool-cases (str_eq n name)) [
  | inl e ↦
      let same : n ≡ name = (eq_iff n name).0 e in
      let found : m ≡ sm = some_inj.0 (rw e at h) in rw e (rw (same, found) refl)
  | inr e ↦ rw e (find-reload_machines new name rest sm (rw e at h))
]

find-reload_access :
    (casefold : String → String) (machines : List (String × ServerStateMachine)) (name : String)
    (controllers : List (String × AccessController)) (a : AccessController)
    (sm : ServerStateMachine)
    → find name controllers ≡ some a
    → find name machines ≡ some sm
    → find name (reload_access casefold machines controllers)
      ≡ some (update casefold sm.cfg.access a)
unfolding find reload_access
find-reload_access casefold machines name [] a sm h m = cc
find-reload_access casefold machines name ((n, c) ∷ rest) a sm h m =
    elim (Bool-cases (str_eq n name)) [
      | inl e ↦
          let same : n ≡ name = (eq_iff n name).0 e in
          let found : c ≡ a = some_inj.0 (rw e at h) in
          rw e (rw same (rw (m, update_found) (rw found refl)))
      | inr e ↦ rw e (find-reload_access casefold machines name rest a sm (rw e at h) m)
    ]

-- A reload gives a server that the new file has the idle timeout, the start timeout, the message for a hibernating
-- server, the kick message and the access settings of the file and the new cooldowns, and leaves the rest of its
-- configuration and of its machine as it was; the proxy gets a controller for the new access settings with
-- nothing cached.
pub reload_applies :
    (casefold : String → String) (new : AppConfig) (w : Watcher) (name : String)
    (srv : ServerConfig) (sm : ServerStateMachine) (a : AccessController)
    → find name w.machines ≡ some sm
    → find name new.servers ≡ some srv
    → find name w.access ≡ some a
    → let w' = apply casefold new w in
      (find name w'.machines
        ≡ some (record sm {
          cfg = record {
            name = sm.cfg.name;
            crafty_server_id = sm.cfg.crafty_server_id;
            listen_port = sm.cfg.listen_port;
            listen_host = sm.cfg.listen_host;
            edition = sm.cfg.edition;
            idle_timeout_minutes = srv.idle_timeout_minutes;
            start_timeout_seconds = srv.start_timeout_seconds;
            motd_hibernating = srv.motd_hibernating;
            kick_message = srv.kick_message;
            access = srv.access;
          };
          cooldowns = new.cooldowns;
        }))
      × (find name w'.access ≡ some (configured casefold srv.access a.logged))
unfolding apply reload_machine update take_over
reload_applies casefold new w name srv sm a m s c = (
  find-reload_machines new name w.machines sm m ∙ rw s refl,
  find-reload_access casefold (reload_machines new w.machines) name w.access a
        (reload_machine new name sm) c (find-reload_machines new name w.machines sm m)
      ∙ rw s refl,
)

-- What the port of a server belongs to: none of it is configuration that a reload takes over.
abbrev pub identity : String × ServerStateMachine → String × String × String × ℤ × String
identity (name, sm) =
    (name, sm.cfg.crafty_server_id, sm.cfg.listen_host, sm.cfg.listen_port, sm.cfg.edition)

abbrev pub AllSane : List (String × ServerStateMachine) → Type 0
AllSane machines = All (λ (s : String × ServerStateMachine). IsSane s.1) machines

reload_machine-identity :
    (new : AppConfig) (name : String) (sm : ServerStateMachine)
    → (identity (name, reload_machine new name sm) ≡ identity (name, sm))
      × (IsSane sm → IsSane (reload_machine new name sm))
unfolding reload_machine take_over
reload_machine-identity new name sm = elim (Option-cases (find name new.servers)) [
  | inl e ↦ rw e (refl, λ h. ground arith)
  | inr (srv, e) ↦ rw e (refl, λ h. ground arith)
]

kept :
    (new : AppConfig) (machines : List (String × ServerStateMachine))
    → AllSane machines
    → (map identity (reload_machines new machines) ≡ map identity machines)
      × AllSane (reload_machines new machines)
unfolding reload_machines
kept new [] h = (refl, tt)
kept new ((name, sm) ∷ rest) (q, h) =
    let (same, sane) = reload_machine-identity new name sm in
    let (others, rest_sane) = kept new rest h in (rw (same, others) refl, (sane q, rest_sane))

-- A reload leaves every server's id, host, port and edition, and the machines sane.
pub reload_keeps_servers :
    (casefold : String → String) (new : AppConfig) (w : Watcher)
    → AllSane w.machines
    → let w' = apply casefold new w in
      (map identity w'.machines ≡ map identity w.machines) × AllSane w'.machines
unfolding apply
reload_keeps_servers casefold new w h = kept new w.machines h

-- If the new file has polling settings that are no mapping, as where every line below `polling:`
-- is a comment, then a reload ends the watcher, though the settings for Crafty and the servers of
-- the file are as they should be.
pub empty_section_ends_watcher :
    (casefold : String → String) (py : Python) (environment : String → String) (raw : Fields)
    (v : Json) (crafty : CraftyConfig) (servers : List (String × ServerConfig)) (w : Watcher)
    → load_section (λ r. loaded (load_crafty py r)) raw "crafty" ≡ loaded crafty
    → load_server_table py (get raw "servers") ≡ loaded servers
    → look_up raw "polling" ≡ some v
    → is_mapping v ≡ false
    → on_reload casefold (load_config py environment (parsed (obj raw))) w ≡ none
unfolding on_reload
empty_section_ends_watcher casefold py environment raw v crafty servers w c s e m =
    rw (empty_section_raises py environment raw v crafty servers c s e m) refl
