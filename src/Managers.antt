-- ===== src/Managers.antt =====
-- The two managers over all their servers, by name: what ensures the listeners of all, and the end, where
-- `run` stops them. The turn of a server goes up to its `await`.
use crafty_server_watcher.Common.{String, List, [], ◌∷◌}
use crafty_server_watcher.Proxy.{Slot}
use crafty_server_watcher.Health.{Slots}
use crafty_server_watcher.Bedrock.{Berth}
use crafty_server_watcher.Proxy
use crafty_server_watcher.Bedrock

-- proxy_listener.py
unfoldable pub ensure_listeners : Slots → Slots
ensure_listeners [] = []
ensure_listeners ((name, p) ∷ rest) = (name, Proxy.ensure_listener p) ∷ ensure_listeners rest

unfoldable pub stop_all : Slots → Slots
stop_all [] = []
stop_all ((name, p) ∷ rest) = (name, Proxy.stop_listener p) ∷ stop_all rest

abbrev pub Berths : Type 0
Berths = List (String × Berth)

-- bedrock_proxy.py: a turn of the loop of `run`, and the clean-up after it.
unfoldable pub ensure_berths : Berths → Berths
ensure_berths [] = []
ensure_berths ((name, b) ∷ rest) = (name, Bedrock.ensure_listener b) ∷ ensure_berths rest

unfoldable pub stop_berths : Berths → Berths
stop_berths [] = []
stop_berths ((name, b) ∷ rest) = (name, Bedrock.stop_listener b) ∷ stop_berths rest
