-- ===== src/Lib.antt =====
-- Kinetic Atlas: a local HTTP proxy that resolves names under the top-level domains of independent
-- networks. A name's zone is a signed record in the DHT of its network; its content is fetched from an
-- IPFS gateway or from a peer of that network.
--
-- The parts, and how they interact.
--   A request reaches the handler (src/proxy.rs), which cuts the domain into a registered name, a
--   subdomain and a top-level domain, finds the network in the registry (src/registry.rs), gets the
--   channel of a running node from the swarm manager (src/swarm_manager.rs), asks the node
--   (src/network.rs) for the record of the name, verifies it, chooses targets from the zone, and tries
--   them in order. A node that is started takes its bootstrap addresses from the configuration and from
--   TXT records (src/dns_tree.rs). Errors become RFC 7807 answers (src/error.rs). The updater
--   (src/updater.rs) fetches signed network files; src/main.rs puts all of it together.
--
-- Which file models which part.
--   Base, Text: options, results, association lists for `HashMap`, and texts as lists of code points
--     with the methods of `str` that the sources call.
--   Constants, Types: src/constants.rs and src/types.rs.
--   Error: src/error.rs. `error_response` is `IntoResponse for AtlasError`.
--   Registry: src/registry.rs. `load_from_dir` is the method, by a directory's entries. Registry.Spec
--     has the specification by the first provider of a top-level domain.
--   DnsTree: src/dns_tree.rs. `walk` is the while loop, `explore` the function after the root answer.
--   Network.Bootstrap: `KineticAtlasNode::new`. Network.Loop: `KineticAtlasNode::run`; a turn is a
--     command or an event, `run` the whole loop with its tables of responders. Network.Loop.Replies
--     and Network.Loop.Responses have what the handler receives for a command. Network.Channel: the
--     command channel of a node with its senders, its capacity of 32 and the two ends of the task.
--   SwarmManager: src/swarm_manager.rs. `touch` and `check_and_spawn` are the two critical sections of
--     `get_or_spawn_swarm`, `collect` a round of the garbage collector. SwarmManager.Schedule has the
--     interleavings of requests and rounds as lists of moves, SwarmManager.Seeds the bootstrap addresses
--     of a node with `resolve_dns_tree` for the resolution.
--   Proxy: src/proxy.rs. Domain is `extract_base_domain_and_subdomain` with the host's port and top-level
--     domain; Locate the part up to the network; Zone the choice of records; Targets the loop over the
--     targets; Handler the whole of `handle_proxy_request`; Domain.UnitTests the tests of the file.
--     Proxy.Outside is the record of what the handler gets from other crates and programs.
--   Updater: src/updater.rs. `fetch_and_update` with the files that it writes, `round` and `run` for the
--     loop around it.
--   Main: src/main.rs. `get_or_create_config`, the state that `main` sets up, and `run_daemon`: requests,
--     rounds of the collector and reloads by the updater, one after the other. Main.Serving: `main` up
--     to its server, with `start_proxy_server`. Main.Loads: the registry after each load of its directory.
--   Daemon: the whole program as a step relation: requests of the whole handler in flight at once, each
--     with its own answers from outside, handlers that are dropped as their client goes away, rounds of
--     the collector, reloads, nodes whose loop ends since nobody has a sender of their channel, and
--     Ctrl-C, which is broadcast to the nodes that have been started and ends them one by one while
--     requests go on until the process exits. `advance` is a turn of the handler: an access to what the
--     tasks share, the way to the targets, or one target. An await that never ends is a handler without
--     a further turn.
--     Daemon.Invariant has what holds of a request at each of its phases, and the reference for its
--     answer; Daemon.Closing and Daemon.Open follow the senders of the channels; Daemon.Sources follows what
--     each node was started from, to the files of the registry and the DNS answers.
--   Tests: concrete runs.
--
-- State and time. A mutex makes a critical section one step, so the manager is passed on as a value;
-- what runs in the background is a map from channels to nodes. Times are numbers that a caller gives.
-- A function of another crate is a field of a record of functions, which takes the number of the call
-- where its answers may differ from call to call. Over a run of Daemon, the resolution of seed domains and
-- the creation of a node are fixed functions.
--
-- Bounds and fuel. The loop on fuel is `walk`: its fuel is the number of lookups that are left, which the
-- source counts as well, so that running out is what the source does at its limit. `digits` has a round
-- for each digit that a number can have. All other loops go through a list.
--
-- Not modelled: the codecs that serde derives, and `serde_bytes_wrapper`; libp2p, the DNS resolver, HTTP
-- clients and servers, Ed25519, file and network I/O, which are parameters; logging; the tests of
-- src/registry.rs, which do not compile. `to_lowercase` is that of ASCII, since the text of a header
-- value is ASCII. What a failing write leaves of a file, and what the DHT's routing table makes of an
-- address that it is given, are outside, too.
pub mod Base
pub mod Text
pub mod Constants
pub mod Types
pub mod Error
pub mod Registry
pub mod DnsTree
pub mod Network
pub mod SwarmManager
pub mod Proxy
pub mod Updater
pub mod Main
pub mod Daemon
pub mod Tests
