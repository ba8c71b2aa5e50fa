-- ===== src/Napt.antt =====
-- crates/warren-bolthole-core/src/nat.rs: the peer-aware NAPT.
pub mod Types
pub mod Flow
pub mod Recency
pub mod Table
pub mod Static
pub mod Identity
pub mod Maps
pub mod Flush
pub mod Ownership
pub mod Filtering
pub mod Sweep
pub mod Translate
