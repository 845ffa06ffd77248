-- ===== src/Examples.antt =====
-- Runs of the watcher at concrete inputs, and the theorems at inputs that meet their hypotheses.
mod Fixture
mod Machines
mod Monitor
mod Store
mod Listener
mod Protocol
mod Requests
mod Udp
mod Packets
mod Loading
mod Events
mod Exchanges
mod Starting
mod Running
mod Documents
mod Program
