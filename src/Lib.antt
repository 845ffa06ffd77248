-- ===== src/Lib.antt =====
-- Crafty Server Watcher: it puts Minecraft servers that nobody plays on to sleep, holds their port
-- while they sleep, and wakes them when a player who may do so connects.
--
-- The program's parts. A state machine stands for each server (crafty_server_watcher/server_state.py).
-- The idle monitor (idle_monitor.py) polls the Crafty controller through its API (crafty_api.py), moves
-- the machines, and asks for a stop of a server that has been empty long enough; each change of a
-- machine saves all machines through the state store (state_store.py), from which they are restored
-- after a restart. The proxy (proxy_listener.py, on the packets of mc_protocol.py) listens on the port
-- of a sleeping server, answers pings, kicks players who log in and requests a start; access_control.py
-- says who may. bedrock_proxy.py does this for Bedrock servers, on the packets of bedrock_protocol.py.
-- The health server (health_server.py) answers requests for the status and the metrics (metrics.py), and
-- takes Crafty's own events (crafty_events.py), for which it calls the proxy. The webhook notifier
-- (webhook.py) reports what happened. __main__.py reads the configuration (config.py), builds the
-- components, and reads it again on SIGHUP.
--
-- Which file models which part:
--   * Config, Values, Loading, Sections, ConfigLoader: crafty_server_watcher/config.py, its data classes, `_get`,
--     and `load_config` on the value that `yaml.safe_load` returns.
--   * State, State/Graph: `State` and the table `_VALID_TRANSITIONS` of server_state.py.
--   * ServerState and below: `ServerStateMachine`, one function per method of the same name. What a
--     method does besides (calls of the Crafty API, notifications, the callback `on_change`, packets to
--     a player) is an effect in the trace of a tracked machine, newest first.
--   * IdleMonitor and below: `_poll_one` is `poll_one`, cut at `await self._api.stop_server` into `react`
--     and `after_stop`; `_poll_all` is `poll_all` (Round), with its error handling. Service: `run`, a
--     sequence of rounds from the snapshots that are loaded. The proxy's slots hold the same machines
--     (`to_slots` and `to_servers` carry a machine over), and its tasks move them between the rounds.
--   * Process and below: the tasks that `_run` gathers, `run` of each component and `_reload_watcher`, the
--     signal handlers, and what the two proxies spawn, as turns between `await`s that come in any order. Every
--     holder of a machine has a copy in the model, where Python has one object: `set_servers`, `set_slots` and
--     `set_berths` carry what a turn did to a machine over to the other holders, and stand for no code. Induction is the rule by which an invariant of the shared state is proved.
--   * Program: `main` and `_run` as a whole, from the command line to the tasks, with every way to end before
--     them; Generations: starts that follow one another on one state file; Beginning: what
--     lies behind a start that gets to its tasks.
--   * Logging: `setup_logging` of logger.py, with the `basicConfig` of `main` before it.
--   * Schema: types of the JSON documents that the watcher writes.
--   * CraftyApi: every method of `CraftyApiClient`, on an exchange by http.client as a parameter. Polling:
--     how the exchanges of a poll lead to what a round meets.
--   * StateStore, Json: `save`, `_write_atomic`, `load`. A file holds a JSON value; writing is a
--     sequence of stages, of which any may raise.
--   * Proxy: what `ProxyManager` holds for one server (a slot), one function for each part of a method
--     between two `await`s. Proxy/Schedule runs these parts in any order, whole polls included, also the first one, which may
--     restore a snapshot. Client: the
--     handling of a connection from its first byte, on the bytes that the client sends. Managers: the
--     loops over all servers of both proxies.
--   * McProtocol and below: mc_protocol.py. `_read_varint_async` is `read_varint` on the bytes that
--     arrive. Utf8 and JsonText have the codec and the printing of JSON that it uses.
--   * RakNet: bedrock_protocol.py. Bedrock: what `BedrockProxyManager` of bedrock_proxy.py holds for one
--     server, in the same way as Proxy; Bedrock/Datagram: `datagram_received`.
--   * AccessControl: `AccessController`. CraftyEvents: crafty_events.py. Text: what is used of `str`.
--   * Health: `_process_crafty_event` on the slots of all servers; Health/Http: a request to a response;
--     Health/Replies: what is sent for a response. Metrics: metrics.py.
--   * Webhook: the rate limit of `notify_denied`; Webhook/Message: the texts, payloads and requests.
--   * Startup, Reload: what `_run` of __main__.py builds, and what SIGHUP does.
--   * Examples: runs at concrete inputs.
--
-- Numbers and time. Python's float seconds are whole ticks, a million to the second, so that what floats
-- round is left out; a JSON number is its value in ticks, and `json.dumps` in JsonText prints whole
-- numbers, which are all that the packets hold. The clock is read once per part; the answers of the
-- Crafty API, the outcome of a bind and of each stage of a write are arguments. VarInt loops have
-- Python's own bound of five rounds, the loop of `_start_listener` its bound of fifteen, and printing a
-- number has a digit for each round of its fuel, which is above the number.
-- In Python 3.11, on which the image of the Dockerfile runs, `wait_closed` of a closed listener returns
-- at once; the proxy's parts rest on that.
--
-- Parameters stand for what is not in the repository, or is the standard library's and not written out:
-- `str` and `int` of values, `str.lower`, `str.casefold`, `json.loads`, `json.dumps` outside packets,
-- `parse_qs`, `urlparse`, `ArgumentParser.parse_args`, decoding with replacement, the printing of seconds, and exchanges by
-- http.client.
--
-- Not modelled: the text of log messages other than those of the whitelist, the branch of `_run` for Windows, sockets,
-- the lookup of a client's address, the cancelling of tasks when the event loop closes, the rotation of the log
-- file, and an event receiver without a proxy manager, which __main__.py never builds.
pub mod Common
pub mod Config
pub mod State
pub mod ServerState
pub mod IdleMonitor
pub mod Proxy
pub mod Utf8
pub mod McProtocol
pub mod Json
pub mod AccessControl
pub mod Webhook
pub mod Health
pub mod Bedrock
pub mod JsonText
pub mod Client
pub mod Values
pub mod Loading
pub mod Sections
pub mod ConfigLoader
pub mod Reload
pub mod Startup
pub mod Text
pub mod CraftyEvents
pub mod RakNet
pub mod CraftyApi
pub mod Polling
pub mod Metrics
pub mod Service
pub mod Process
pub mod Program
pub mod Logging
pub mod Schema
pub mod Managers
pub mod StateStore
mod Examples
