-- ===== src/Lib.antt =====
-- Codex HA Monitor: the agent that watches a Codex installation and tells Home Assistant what its
-- threads do. This library models the agent, in agent/internal and agent/cmd/cma: its monitor, what
-- feeds it and what serves it. It proves what the agent reports and when it acts.
--
-- How the agent works. Two collectors feed a `Monitor` with threads: the Codex App Server's list and
-- messages (monitor.go), and the session files. Hooks of Codex add observations with a time to live
-- (hooks.go). The App Server asks for approvals and input; these are pending until an action answers
-- them or they are resolved (control.go). Every change ends in `rebuildLocked`, which merges the
-- sources, applies hooks, hierarchy and requests, summarises the threads (model.go), numbers the
-- transitions since the last rebuild as events, and broadcasts the snapshot if it has changed
-- (events.go).
--
-- Which file models what:
--   Prelude           tests, lists, maps as association lists, stable sorting
--   Json, Text        JSON values as decoded; the functions of `strings` and `strconv` that are used
--   Model             model.go: the types, `Summarize`
--   Hierarchy, Merge  `assignThreadHierarchy` (events.go), `mergeThreads` (monitor.go)
--   Monitor/State     `Config`, `Monitor`, and the state of hooks and requests
--   Monitor/Upsert    the index by id that hooks and requests update their threads through
--   Monitor/Hooks, Monitor/RecordHook         hooks.go
--   Monitor/Requests, Monitor/Control         control.go, and how a request shows (events.go)
--   Monitor/Stream, Monitor/Events            events.go, and `Subscribe` (monitor.go)
--   Monitor/Rebuild                           `rebuildLocked`, `isStaleLocked`
--   Monitor/AppServer, Monitor/Account, Monitor/Usage, Monitor/Refresh, Monitor/Connect, Monitor/Loop
--                     the rest of monitor.go: messages, failures, usage, refreshes, connection, and
--                     the loop of `runAppServer` as a relation between its places
--   Monitor/Steps     the sections under the lock, and the sends and receives on a subscriber's channel,
--                     as the steps of a relation
--   Http              agent/internal/httpapi/server.go: Messages has requests and answers, Reads, Actions
--                     and Stream the handlers, Server the mux, `authenticate` and `cors`
--   Collector         agent/internal/collector/filesystem.go: Session one file, Listing `Collect`
--   AppClient         agent/internal/appserver/client.go: Requests the waiting requests and the read
--                     loop as steps, Connect `ConnectStdio`
--   Relay             agent/internal/hookrelay/relay.go, and the hook commands of agent/cmd/cma/main.go;
--                     Relay/Shell is a reference reader of a POSIX shell's words
--   Identity, Discovery       agent/internal/identity/identity.go, agent/internal/discovery/mdns.go
--   Agent             agent/cmd/cma/main.go: the options, their checks and the configuration
--   Tests             concrete inputs, and each theorem at one of them
--
-- How the code is modelled. An operation is a function from state to state, with the time it reads
-- as an argument. The lock makes its sections atomic; where an operation unlocks in between,
-- `meanwhile` is what others do then, and Monitor/Steps takes each section as a step. Go ranges over
-- maps in any order: `Env` holds the orders of one call, with the clock it reads again and the
-- SHA-256 digest of a snapshot. What the App Server's client replies is an argument of an action,
-- and what is sent is part of its outcome. Times are nanoseconds as natural numbers; the 64-bit
-- counters wrap around. A root is looked for on fuel of one step more than there are threads.
--
-- An HTTP request comes with its query and body decoded, and `World` holds what surrounds it: the client's
-- reply, what other goroutines do, what `ServeMux` answers to a path that is not clean, and how JSON
-- is printed. The server and the monitor meet in `serve`, which runs the monitor's operations; the
-- relay and the server meet in Relay/Forward. A session file is the bytes that its two reads yield. A waiting
-- request of the App Server's client is its channel of capacity one. The advertised name is cut on fuel
-- of as many steps as the hostname has runes, and a number is printed on fuel of the twenty digits
-- that 64 bits can have.
--
-- Not modelled: the decoding and printing of JSON, the App Server's process and the bytes on its pipes,
-- the zeroconf server, the HTTP client, signals, flags and logging, timers, the status page,
-- and the Python integration.
pub mod Prelude
pub mod Json
pub mod Model
pub mod Hierarchy
pub mod Merge
pub mod Text
pub mod Monitor
pub mod Relay
pub mod Identity
pub mod Http
pub mod Collector
pub mod AppClient
pub mod Agent
pub mod Discovery
pub mod Tests
