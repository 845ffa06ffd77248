-- ===== src/ConfigLoader/Names.antt =====
-- crafty_server_watcher/config.py: the servers are loaded under the keys of the table that they stand in.
use crafty_server_watcher.Common.{String, List, [], ◌∷◌}
use crafty_server_watcher.Config.{ServerConfig}
use crafty_server_watcher.Json.{Json, obj, Fields, end, field, get}
use crafty_server_watcher.ConfigLoader.{ConfigFile, parsed}

abbrev pub keys_of : Fields → List String
keys_of end = []
keys_of (field name v rest) = name ∷ keys_of rest

abbrev pub table_keys : Json → List String
table_keys (obj fields) = keys_of fields
table_keys _ = []

-- The keys of the table of servers in a file.
abbrev pub server_keys : ConfigFile → List String
server_keys (parsed (obj raw)) = table_keys (get raw "servers")
server_keys _ = []

abbrev pub names_of : List (String × ServerConfig) → List String
names_of [] = []
names_of ((name, srv) ∷ rest) = name ∷ names_of rest
