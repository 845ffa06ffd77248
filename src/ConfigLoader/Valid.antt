-- ===== src/ConfigLoader/Valid.antt =====
-- What every loaded configuration has.
use crafty_server_watcher.Common.{
  ◌≡◌, ◌≢◌, refl, ◌⊎◌, inl, inr, String, true, false, ◌&&◌, ◌||◌, List, [], ◌∷◌, ◌++◌, str_eq,
  arith, All,
}
use crafty_server_watcher.Config.{
  AccessConfig, ServerConfig, WebhookConfig, AppConfig, CraftyEventsConfig,
}
use crafty_server_watcher.Json.{Json, obj, Fields, end, field, get, is_true}
use crafty_server_watcher.Values.{Python}
use crafty_server_watcher.Loading.{
  Loading, loaded, config_error, raised, section, load_section, get_str,
}
use crafty_server_watcher.Sections.{rooted, is_rooted, load_webhook, load_crafty_events}
use crafty_server_watcher.ConfigLoader.Ports.{DistinctPorts, DistinctPorts-concat}
use crafty_server_watcher.ConfigLoader.{
  is_empty, ConfigFile, missing, unreadable, malformed, parsed, load_access, access_of, load_server,
  load_servers, load_server_table, load_root, load_config,
}

pub record IsValidAccess (a : AccessConfig) : Type 0 where
  pub known_mode : (str_eq a.mode "off" || str_eq a.mode "whitelist") ≡ true
  pub has_source :
      (str_eq a.mode "whitelist" && str_eq a.whitelist_file "" && is_empty a.allowed_players)
      ≡ false

pub record IsValidServer (name : String) (srv : ServerConfig) : Type 0 where
  pub named : srv.name ≡ name
  pub known_edition : (str_eq srv.edition "java" || str_eq srv.edition "bedrock") ≡ true
  pub access : IsValidAccess srv.access

abbrev pub Servers : List (String × ServerConfig) → Type 0
Servers servers = All (λ (s : String × ServerConfig). IsValidServer s.0 s.1) servers

Servers-concat :
    (seen : List (String × ServerConfig)) (name : String) (srv : ServerConfig)
    → Servers seen
    → IsValidServer name srv
    → Servers (seen ++ (name, srv) ∷ [])
Servers-concat [] name srv h v = (v, tt)
Servers-concat (s ∷ rest) name srv (q, h) v = (q, Servers-concat rest name srv h v)

pub Loading-cases :
    {A : Type 0} (m : Loading A) → ((m ≡ config_error) ⊎ (m ≡ raised)) ⊎ ((a : A) × (m ≡ loaded a))
Loading-cases (loaded a) = inr (a, refl)
Loading-cases config_error = inl (inl refl)
Loading-cases raised = inl (inr refl)

pub record IsValid (c : AppConfig) : Type 0 where
  pub servers : Servers c.servers
  pub some_server : c.servers ≢ []
  pub ports : DistinctPorts c.servers
  pub webhook_has_url : (c.webhook.enabled && str_eq c.webhook.url "") ≡ false
  pub events_rooted : is_rooted c.crafty_events.path ≡ true
  pub has_token : str_eq c.crafty.api_token "" ≡ false

concat-ne-nil {ℓ} : {A : Type ℓ} (xs : List A) (x : A) → (xs ++ x ∷ []) ≢ []
concat-ne-nil [] x e = cc
concat-ne-nil (y ∷ ys) x e = cc

rooted-rooted : (path : String) → is_rooted (rooted path) ≡ true
unfolding rooted
rooted-rooted path = ground arith

module _ (py : Python) where
  load_access-IsValidAccess :
      (raw : Fields) (a : AccessConfig) → load_access py raw ≡ loaded a → IsValidAccess a
  unfolding load_access
  load_access-IsValidAccess raw a h = ground arith

  access_of-IsValidAccess :
      (v : Json) (a : AccessConfig) → access_of py v ≡ loaded a → IsValidAccess a
  unfolding access_of
  access_of-IsValidAccess (obj raw) a h = load_access-IsValidAccess raw a h
  access_of-IsValidAccess _ a h = ground (arith, load_access-IsValidAccess end a)

  load_server-IsValidServer :
      (name : String) (raw : Fields) (srv : ServerConfig)
      → load_server py name raw ≡ loaded srv
      → IsValidServer name srv
  unfolding load_server
  load_server-IsValidServer name raw srv h =
      ground (arith, access_of-IsValidAccess (get raw "access") srv.access)

  -- The loop keeps what holds of the servers loaded so far.
  load_servers-keeps :
      (raw : Fields) (seen servers : List (String × ServerConfig))
      → Servers seen
      → DistinctPorts seen
      → load_servers py seen raw ≡ loaded servers
      → Servers servers × DistinctPorts servers
  unfolding load_servers
  load_servers-keeps end seen servers v d h = ground arith
  load_servers-keeps (field name (obj raw) rest) seen servers v d h =
      elim (Loading-cases (load_server py name raw)) [
        | inl none_loaded ↦ ground arith
        | inr (srv, e) ↦ ground (
          arith,
          load_server-IsValidServer name raw srv e,
          Servers-concat seen name srv v,
          DistinctPorts-concat seen name srv d,
          load_servers-keeps rest (seen ++ (name, srv) ∷ []) servers,
        )
      ]
  load_servers-keeps (field name _ rest) seen servers v d h = ground arith

  -- The loop only adds servers.
  load_servers-ne-nil :
      (raw : Fields) (seen servers : List (String × ServerConfig))
      → seen ≢ []
      → load_servers py seen raw ≡ loaded servers
      → servers ≢ []
  unfolding load_servers
  load_servers-ne-nil end seen servers n h = ground arith
  load_servers-ne-nil (field name (obj raw) rest) seen servers n h =
      elim (Loading-cases (load_server py name raw)) [
        | inl none_loaded ↦ ground arith
        | inr (srv, e) ↦ ground (
          arith,
          concat-ne-nil seen (name, srv),
          load_servers-ne-nil rest (seen ++ (name, srv) ∷ []) servers,
        )
      ]
  load_servers-ne-nil (field name _ rest) seen servers n h = ground arith

  load_server_table-keeps :
      (v : Json) (servers : List (String × ServerConfig))
      → load_server_table py v ≡ loaded servers
      → (servers ≢ []) × Servers servers × DistinctPorts servers
  unfolding load_server_table is_true load_servers
  load_server_table-keeps (obj end) servers h = cc
  load_server_table-keeps (obj (field name (obj raw) rest)) servers h =
      elim (Loading-cases (load_server py name raw)) [
        | inl none_loaded ↦ ground arith
        | inr (srv, e) ↦ ground (
          arith,
          load_servers-ne-nil rest ((name, srv) ∷ []) servers (λ q. cc),
          load_server-IsValidServer name raw srv e,
          load_servers-keeps rest ((name, srv) ∷ []) servers,
        )
      ]
  load_server_table-keeps (obj (field name _ rest)) servers h = ground arith
  load_server_table-keeps _ servers h = ground arith

  load_webhook-has_url :
      (raw : Fields) (w : WebhookConfig)
      → load_webhook py raw ≡ loaded w
      → (w.enabled && str_eq w.url "") ≡ false
  unfolding load_webhook
  load_webhook-has_url raw w h = ground arith

  events_rooted :
      (raw : Fields) (e : CraftyEventsConfig)
      → loaded (load_crafty_events py raw) ≡ loaded e
      → is_rooted e.path ≡ true
  unfolding load_crafty_events
  events_rooted raw e h = ground (arith, rooted-rooted (get_str py raw "path" "/events/crafty"))

  -- What every value of a loader has, the loader of a section has.
  load_section-keeps {ℓ κ} :
      {A : Type ℓ} (P : A → Type κ) (load : Fields → Loading A) (raw : Fields) (key : String)
      (a : A)
      → ((r : Fields) → load r ≡ loaded a → P a)
      → load_section load raw key ≡ loaded a
      → P a
  unfolding load_section
  load_section-keeps P load raw key a keep h = elim (Loading-cases (section raw key)) [
    | inl (inl e) ↦ cc
    | inl (inr e) ↦ cc
    | inr (r, e) ↦ keep r (cc)
  ]

  load_root-IsValid :
      (environment : String → String) (raw : Fields) (c : AppConfig)
      → load_root py environment raw ≡ loaded c
      → IsValid c
  unfolding load_root
  load_root-IsValid environment raw c h = ground (
    arith,
    load_server_table-keeps (get raw "servers") c.servers,
    load_section-keeps (λ w. (w.enabled && str_eq w.url "") ≡ false) (load_webhook py) raw "webhook"
        c.webhook (λ r. load_webhook-has_url r c.webhook),
    load_section-keeps (λ e. is_rooted e.path ≡ true) (λ r. loaded (load_crafty_events py r)) raw
        "crafty_events" c.crafty_events (λ r e. events_rooted r c.crafty_events e),
  )

  -- Every configuration that is loaded has a server, its servers on ports of their own, each under its
  -- own name, with a known edition, a known access mode, and a source of names where it whitelists; a
  -- webhook that is on has a URL, the path for events begins with a slash, and the token is not empty.
  pub load_config-IsValid :
      (environment : String → String) (f : ConfigFile) (c : AppConfig)
      → load_config py environment f ≡ loaded c
      → IsValid c
  unfolding load_config
  load_config-IsValid environment missing c h = ground arith
  load_config-IsValid environment unreadable c h = ground arith
  load_config-IsValid environment malformed c h = ground arith
  load_config-IsValid environment (parsed (obj raw)) c h = load_root-IsValid environment raw c h
  load_config-IsValid environment (parsed _) c h =
      ground (arith, load_root-IsValid environment end c)
