-- ===== src/Startup/Ready.antt =====
-- What holds of a watcher that has started.
use crafty_server_watcher.Common.{
  ◌≡◌, ◌≢◌, refl, sym, String, Bool, true, false, not, Option, none, some, List, [], ◌∷◌, str_eq,
  All, is_some, Bool-cases, inl, inr, arith,
}
use mathlib.Core.Path.{subst}
use crafty_server_watcher.Config.{CraftyConfig, ServerConfig, CooldownConfig, AppConfig}
use crafty_server_watcher.Json.{Json}
use crafty_server_watcher.Values.{Python}
use crafty_server_watcher.Loading.{Loading, loaded, config_error}
use crafty_server_watcher.ConfigLoader.{ConfigFile, load_config}
use crafty_server_watcher.ConfigLoader.Ports.{DistinctPorts}
use crafty_server_watcher.ConfigLoader.Valid.{IsValid, load_config-IsValid}
use crafty_server_watcher.State.{unknown}
use crafty_server_watcher.ServerState.{ServerStateMachine, Machines, new}
use crafty_server_watcher.ServerState.Invariant.{IsSane}
use crafty_server_watcher.CraftyApi.{
  CraftyApiClient, Library, Called, returned, connection_error, raised, api_error, check_health,
  list_servers,
}
use crafty_server_watcher.Startup.{
  Components, Started, running, machine_of, machines_of, of_edition, known_ids, build, with_ids,
  with_servers, when_healthy, when_loaded, start_up,
}

abbrev pub configured_as : Machines → List (String × ServerConfig)
configured_as [] = []
configured_as ((name, sm) ∷ rest) = (name, sm.cfg) ∷ configured_as rest

configured_as-machines_of :
    (kept : Bool) (cooldowns : CooldownConfig) (servers : List (String × ServerConfig))
    → configured_as (machines_of kept cooldowns servers) ≡ servers
unfolding machines_of machine_of new
configured_as-machines_of kept cooldowns [] = refl
configured_as-machines_of kept cooldowns ((name, srv) ∷ rest) =
    rw (configured_as-machines_of kept cooldowns rest) refl

abbrev pub IsFresh : String × ServerStateMachine → Type 0
IsFresh (name, sm) = (sm.state ≡ unknown) × IsSane sm

machines_of-IsFresh :
    (kept : Bool) (cooldowns : CooldownConfig) (servers : List (String × ServerConfig))
    → All IsFresh (machines_of kept cooldowns servers)
unfolding machines_of machine_of new
machines_of-IsFresh kept cooldowns [] = tt
machines_of-IsFresh kept cooldowns ((name, srv) ∷ rest) =
    ((refl, ground arith), machines_of-IsFresh kept cooldowns rest)

-- The first two lists have between them the entries of the third, each once and in its order.
pub data Split : Machines → Machines → Machines → Type 0 where
  none_left : Split [] [] []
  to_first :
      {s : String × ServerStateMachine} {xs ys zs : Machines}
      → Split xs ys zs
      → Split (s ∷ xs) ys (s ∷ zs)
  to_second :
      {s : String × ServerStateMachine} {xs ys zs : Machines}
      → Split xs ys zs
      → Split xs (s ∷ ys) (s ∷ zs)

of_edition-Split :
    (machines : Machines) → Split (of_edition false machines) (of_edition true machines) machines
unfolding of_edition
of_edition-Split [] = none_left
of_edition-Split ((name, sm) ∷ rest) = elim (Bool-cases (str_eq sm.cfg.edition "bedrock")) [
  | inl e ↦ rw (e, of_edition) (to_second (of_edition-Split rest))
  | inr e ↦ rw (e, of_edition) (to_first (of_edition-Split rest))
]

of_edition-same :
    (bedrock : Bool) (machines : Machines)
    → All
        (λ (s : String × ServerStateMachine). str_eq s.1.cfg.edition "bedrock" ≡ bedrock)
        (of_edition bedrock machines)
unfolding of_edition
of_edition-same bedrock [] = tt
of_edition-same true ((name, sm) ∷ rest) = elim (Bool-cases (str_eq sm.cfg.edition "bedrock")) [
  | inl e ↦ rw (e, of_edition) (e, of_edition-same true rest)
  | inr e ↦ rw (e, of_edition) (of_edition-same true rest)
]
of_edition-same false ((name, sm) ∷ rest) = elim (Bool-cases (str_eq sm.cfg.edition "bedrock")) [
  | inl e ↦ rw (e, of_edition) (of_edition-same false rest)
  | inr e ↦ rw (e, of_edition) (e, of_edition-same false rest)
]

machines_of-on_change :
    (kept : Bool) (cooldowns : CooldownConfig) (servers : List (String × ServerConfig))
    → All
        (λ (s : String × ServerStateMachine). s.1.on_change ≡ kept)
        (machines_of kept cooldowns servers)
unfolding machines_of machine_of
machines_of-on_change kept cooldowns [] = tt
machines_of-on_change kept cooldowns ((name, srv) ∷ rest) =
    (refl, machines_of-on_change kept cooldowns rest)

pub record IsReady (c : Components) : Type 0 where
  pub fresh : All IsFresh c.machines
  pub some_machine : c.machines ≢ []
  pub ports : DistinctPorts (configured_as c.machines)
  pub java_only :
      All (λ (s : String × ServerStateMachine). str_eq s.1.cfg.edition "bedrock" ≡ false) c.java
  pub bedrock_only :
      All (λ (s : String × ServerStateMachine). str_eq s.1.cfg.edition "bedrock" ≡ true) c.bedrock
  pub all_proxied : Split c.java c.bedrock c.machines
  pub saves :
      All (λ (s : String × ServerStateMachine). s.1.on_change ≡ is_some c.state_file) c.machines

no_machine :
    (kept : Bool) (cooldowns : CooldownConfig) (servers : List (String × ServerConfig))
    → machines_of kept cooldowns servers ≡ []
    → servers ≡ []
unfolding machines_of
no_machine kept cooldowns [] h = refl
no_machine kept cooldowns ((name, srv) ∷ rest) h = cc

build-IsReady : (cfg : AppConfig) (known : List String) → IsValid cfg → IsReady (build cfg known)
unfolding build
build-IsReady cfg known v =
    let kept = not (str_eq cfg.state_file "") in
    let machines = machines_of kept cfg.cooldowns cfg.servers in
    record {
      fresh = machines_of-IsFresh kept cfg.cooldowns cfg.servers;
      some_machine = λ h. v.some_server (no_machine kept cfg.cooldowns cfg.servers h);
      ports = rw (configured_as-machines_of kept cfg.cooldowns cfg.servers) v.ports;
      java_only = of_edition-same false machines;
      bedrock_only = of_edition-same true machines;
      all_proxied = of_edition-Split machines;
      saves = elim (Bool-cases (str_eq cfg.state_file "")) [
        | inl e ↦ rw e (machines_of-on_change false cfg.cooldowns cfg.servers)
        | inr e ↦ rw e (machines_of-on_change true cfg.cooldowns cfg.servers)
      ];
    }

abbrev IsBuilt : Started → AppConfig → Type 0
IsBuilt (running c) cfg = (known : List String) × (c ≡ build cfg known)
IsBuilt _ cfg = Unit {0}

with_ids-IsBuilt :
    (cfg : AppConfig) (known : Option (List String)) → IsBuilt (with_ids cfg known) cfg
unfolding with_ids
with_ids-IsBuilt cfg none = tt
with_ids-IsBuilt cfg (some known) = (known, refl)

with_servers-IsBuilt :
    (cfg : AppConfig) (servers : Called Json) → IsBuilt (with_servers cfg servers) cfg
unfolding with_servers
with_servers-IsBuilt cfg (returned servers) = with_ids-IsBuilt cfg (known_ids servers)
with_servers-IsBuilt cfg connection_error = tt
with_servers-IsBuilt cfg raised = tt
with_servers-IsBuilt cfg (api_error _ _ _) = tt

when_healthy-IsBuilt :
    (cfg : AppConfig) (health : Called Bool) (servers : Called Json)
    → IsBuilt (when_healthy cfg health servers) cfg
unfolding when_healthy
when_healthy-IsBuilt cfg (returned true) servers = with_servers-IsBuilt cfg servers
when_healthy-IsBuilt cfg (returned false) servers = tt
when_healthy-IsBuilt cfg connection_error servers = tt
when_healthy-IsBuilt cfg raised servers = tt
when_healthy-IsBuilt cfg (api_error _ _ _) servers = tt

when_loaded-IsBuilt :
    (lib : Library) (connect : CraftyConfig → CraftyApiClient) (l : Loading AppConfig)
    (c : Components)
    → when_loaded lib connect l ≡ running c
    → (cfg : AppConfig) × (known : List String) × (l ≡ loaded cfg) × (c ≡ build cfg known)
unfolding when_loaded
when_loaded-IsBuilt lib connect (loaded cfg) c h =
    let client = connect cfg.crafty in
    let (known, same) : IsBuilt (running c) cfg =
      subst (λ s. IsBuilt s cfg) h
        (when_healthy-IsBuilt cfg (check_health lib client) (list_servers lib client)) in
    (cfg, known, refl, same)
when_loaded-IsBuilt lib connect config_error c h = cc
when_loaded-IsBuilt lib connect Loading.raised c h = cc

-- A watcher that starts is built from the configuration in its file.
pub running-IsBuilt :
    (py : Python) (environment : String → String) (lib : Library)
    (connect : CraftyConfig → CraftyApiClient) (file : ConfigFile) (c : Components)
    → start_up py environment lib connect file ≡ running c
    → (cfg : AppConfig) × (known : List String) × (load_config py environment file ≡ loaded cfg)
      × (c ≡ build cfg known)
unfolding start_up
running-IsBuilt py environment lib connect file c h =
    when_loaded-IsBuilt lib connect (load_config py environment file) c h

-- When the watcher starts, whatever Crafty answered, it has a machine; all are UNKNOWN and sane,
-- each on a port of its own; each goes to exactly one of the two proxies, that of its edition, in
-- the order of the file; and each saves its changes exactly if there is a state file.
pub running-IsReady :
    (py : Python) (environment : String → String) (lib : Library)
    (connect : CraftyConfig → CraftyApiClient) (file : ConfigFile) (c : Components)
    → start_up py environment lib connect file ≡ running c
    → IsReady c
running-IsReady py environment lib connect file c h =
    let (cfg, known, l, same) = running-IsBuilt py environment lib connect file c h in
    subst IsReady (sym same)
      (build-IsReady cfg known (load_config-IsValid py environment file cfg l))

-- And it does start where the file can be loaded, Crafty is healthy, and its servers can be read.
pub starts :
    (py : Python) (environment : String → String) (lib : Library)
    (connect : CraftyConfig → CraftyApiClient) (file : ConfigFile) (cfg : AppConfig)
    (servers : Json) (known : List String)
    → load_config py environment file ≡ loaded cfg
    → check_health lib (connect cfg.crafty) ≡ returned true
    → list_servers lib (connect cfg.crafty) ≡ returned servers
    → known_ids servers ≡ some known
    → start_up py environment lib connect file ≡ running (build cfg known)
unfolding start_up when_loaded when_healthy with_servers with_ids
starts py environment lib connect file cfg servers known l h s k = rw (l, h, s, k) refl
