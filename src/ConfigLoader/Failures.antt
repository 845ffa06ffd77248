-- ===== src/ConfigLoader/Failures.antt =====
-- Files whose loading raises something other than a ConfigError.
use crafty_server_watcher.Common.{◌≡◌, refl, String, false, some, List, arith}
use crafty_server_watcher.Config.{ServerConfig, CraftyConfig}
use crafty_server_watcher.Json.{Json, obj, Fields, get}
use crafty_server_watcher.Values.{is_mapping, Python, look_up}
use crafty_server_watcher.Loading.{loaded, raised, section, load_section}
use crafty_server_watcher.Sections.{load_crafty, load_polling}
use crafty_server_watcher.ConfigLoader.{parsed, load_server_table, load_root, load_config}

section-raised :
    (raw : Fields) (key : String) (v : Json)
    → look_up raw key ≡ some v
    → is_mapping v ≡ false
    → section raw key ≡ raised
unfolding section
section-raised raw key v e m = ground arith

-- A file in which the polling settings are there and no mapping, as they are when every line below
-- `polling:` is a comment, makes `load_config` raise something other than a ConfigError, though its
-- servers are as they should be.
pub empty_section_raises :
    (py : Python) (environment : String → String) (raw : Fields) (v : Json) (crafty : CraftyConfig)
    (servers : List (String × ServerConfig))
    → load_section (λ r. loaded (load_crafty py r)) raw "crafty" ≡ loaded crafty
    → load_server_table py (get raw "servers") ≡ loaded servers
    → look_up raw "polling" ≡ some v
    → is_mapping v ≡ false
    → load_config py environment (parsed (obj raw)) ≡ raised
unfolding load_config load_root
empty_section_raises py environment raw v crafty servers c s e m =
    let p : load_section (load_polling py) raw "polling" ≡ raised =
      unfold load_section in rw (section-raised raw "polling" v e m) refl in
    rw c (rw s (rw p refl))
