-- ===== src/Lib.antt =====
-- The core of the WireGuard gateway of this repository, crates/warren-bolthole-core: the NAPT that
-- puts the peers of one gateway behind the address that an exit assigned, the parts it rests on and
-- the address plan of the peers. Beside it stand the parts of the client that decide something: the
-- choice of an exit, the connector that retries, and the codec of the local SOCKS5 proxy.
--
-- The parts, each with the file that models it. The sources without a folder stand in
-- crates/warren-bolthole-core/src/.
--   ports.rs: Ports. `PortAllocator` is the record of the same name, with the free list, the slots
--     that say where a port stands in it, and the reservations. Ports.State says of each port
--     whether it is outside, free, held or pinned; Ports.Valid is the invariant.
--   ratelimit.rs: RateLimit.TokenBucket and RateLimit.HandshakeBuckets. An `Instant` is a number of
--     nanoseconds; the saturating operations on u64 are written out.
--   index.rs: Index. The 24-bit register and its generator.
--   ip.rs: Ip and Ip.Rewrite. A packet is the list of its bytes, and Bytes has the reads and writes
--     that a slice allows, with a panic as a value where the source would panic.
--   icmp.rs: Icmp, as far as the translator uses it: the quote in an error, and its rewriting.
--     Icmp.Build has the messages that the gateway builds itself.
--   nat.rs and the translator's half of stats.rs: Napt. Napt.Types is the state, Napt.Flow the flows
--     of one mapping, Napt.Recency the doubly linked lists that say which mapping of a peer is the
--     oldest, Napt.Table the mappings with their indexes, Napt.Static the forwards, Napt.Sweep the
--     expiry, and Napt.Translate the packet path. Each method keeps its name; one that the source
--     writes as a single body is cut into helpers where a branch needs one.
--   responder.rs, with peer.rs, scratch.rs and the responder's half of stats.rs: Responder.
--     Responder.Types is the state and the engine, Responder.Counters the counters, Responder.Verdict
--     what a decrypted packet may be, Responder.Sessions, Responder.Deliver and Responder.Datagram the
--     path of a datagram, Responder.Downlink that of a packet for a peer, Responder.Timers the timers
--     and the sessions built anew, Responder.Setup and Responder.Reload the configurations,
--     Responder.Views what is told of the peers. Responder.Steps has the calls as a step relation.
--   plan.rs: Plan. An address is the number of its octets, and a function that the source has once for
--     each width of addresses takes the width. Plan.Prefixes reads the bitwise tests as the first bits
--     of an address, Plan.Peers is the plan of the peers.
--   conf.rs: Conf, the checks of a configuration, over the networks of Plan. Conf.Rules says what they
--     are to grant.
--   crates/warren-discovery/src/relay.rs, query.rs and selector.rs: Discovery and Discovery.Selector.
--   crates/warren-transport/src/reconnect.rs: Reconnect. A run returns its result beside the list of
--     its events: the sleeps, the calls of the observer and the calls of the connector.
--   crates/warren-net/src/socks5.rs: Socks5. A parser returns a value, an error or a panic, and
--     Socks5.Utf8 is the test of UTF-8 that the language's library makes.
--
-- How they interact: the translator parses a packet (Ip), finds or makes its mapping (Napt.Table),
-- which takes a port of the space of its family and protocol (Ports), records the packet in the flow
-- and the recency list, and rewrites the packet (Ip.Rewrite, Icmp). A method returns its result
-- beside the state that it leaves, also where it refuses.
--
-- A hash map is an association list with one entry for a key, and the expiry heap a sorted list. The
-- bytes of an address and of an exit's identifier are a list. A peer and a mapping's identifier are
-- numbers, and the counter of identifiers does not wrap: it has 64 bits.
--
-- The responder asks the plan, the routes and the header of a packet (Ip) what a destination is,
-- the two limiters (RateLimit) whether it may spend work, the checks of a configuration (Conf) whether it
-- may be loaded, the generator (Index) for the numbers of its peers, and builds its answers with
-- Icmp.Build. A method that may panic returns a panic as a value.
--
-- The checks of a configuration ask the plan whether a network overlaps the tunnel pool. The plan, the
-- choice of an exit, the connector and the codec otherwise stand apart from the translator and from
-- each other: the gateway's shell and the client call them. They share the results of
-- Prelude.Outcomes and the lists of Prelude.
--
-- Parameters, for code outside the repository: `gen_range` is the draw of the crate rand, with the
-- bound that it keeps as the hypothesis of the theorems on allocation and on the weighted choice;
-- `Networks` are the operations of the crate ip_network on one type of networks, with `Lawful` as what
-- the program relies on; `next` is the iterator of delays of the engine's back-off, and `connect` the
-- closure that dials; `owner_of` is the longest match of the crate ip_network_table; `Checksum` are
-- the checksums of the engine behind crates/warren-tun-core; `Engine` is the crate boringtun, whose
-- sessions share the state of the cookie limiter, and `Routing` its table of routes. What the engine
-- writes into the scratch buffer is what it returns.
--
-- A socket address has, beside its IP address and its port, the flow label and the scope of an IPv6 one;
-- those of an IPv4 one are 0. `SocketAddr::new` and `SocketAddr::from` make both 0, and the codec of
-- SOCKS5 does not write them.
--
-- Bounds: the loop of `IndexGen::next` is given two rounds and that of `sweep` a number of rounds;
-- Index.Distinct and Napt.Sweep.Termination show how many are enough.
--
-- Not modelled: the parser of the configuration and the keys of the gateway,
-- the scores of crates/warren-discovery/src/proximity.rs, which are floating-point numbers, and the
-- other crates: they are I/O, cryptography, asynchronous tasks over third-party engines, or re-exports
-- of such engines. Debug output and accessors are left out.
mod Prelude
pub mod Plan
pub mod Responder
pub mod Conf
pub mod Ports
pub mod RateLimit
pub mod Index
pub mod Bytes
pub mod Ip
pub mod Icmp
pub mod Napt
pub mod Reconnect
pub mod Discovery
pub mod Socks5
mod Tests
