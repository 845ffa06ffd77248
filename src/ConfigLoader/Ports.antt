-- ===== src/ConfigLoader/Ports.antt =====
-- Servers on ports of their own.
use crafty_server_watcher.Common.{◌≡◌, refl, String, false, List, [], ◌∷◌, ◌++◌, ℤ, eq_ℤ, arith}
use crafty_server_watcher.Config.{ServerConfig}
use crafty_server_watcher.ConfigLoader.{uses_port}

-- No two servers have the same port.
abbrev pub DistinctPorts : List (String × ServerConfig) → Type 0
DistinctPorts [] = Unit {0}
DistinctPorts ((name, srv) ∷ rest) = (uses_port srv.listen_port rest ≡ false) × DistinctPorts rest

-- A server behind the others, on a port that none of them has.
uses_port-concat :
    (port : ℤ) (seen : List (String × ServerConfig)) (name : String) (srv : ServerConfig)
    → uses_port port seen ≡ false
    → eq_ℤ srv.listen_port port ≡ false
    → uses_port port (seen ++ (name, srv) ∷ []) ≡ false
uses_port-concat port [] name srv h e = rw e refl
uses_port-concat port ((n, s) ∷ rest) name srv h e =
    ground (arith, uses_port-concat port rest name srv)

pub DistinctPorts-concat :
    (seen : List (String × ServerConfig)) (name : String) (srv : ServerConfig)
    → DistinctPorts seen
    → uses_port srv.listen_port seen ≡ false
    → DistinctPorts (seen ++ (name, srv) ∷ [])
DistinctPorts-concat [] name srv d h = (refl, tt)
DistinctPorts-concat ((n, s) ∷ rest) name srv (q, d) h =
    ground
      (arith, uses_port-concat s.listen_port rest name srv, DistinctPorts-concat rest name srv d)
