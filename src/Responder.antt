-- ===== src/Responder.antt =====
-- crates/warren-bolthole-core/src/responder.rs, with peer.rs, scratch.rs and the responder's half of
-- stats.rs: the sessions of the peers of one gateway, and what becomes of each of their packets.
pub mod Counters
pub mod Types
pub mod Verdict
pub mod Sessions
pub mod Deliver
pub mod Datagram
pub mod Downlink
pub mod Timers
pub mod Setup
pub mod Reload
pub mod Views
pub mod Closed
pub mod Steps
pub mod Cleared
pub mod Frames
pub mod Judged
pub mod Endpoints
pub mod Roaming
pub mod Moves
pub mod Returns
