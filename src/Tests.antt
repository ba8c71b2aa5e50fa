-- ===== src/Tests.antt =====
-- The theorems at concrete inputs.
mod PortSpace
mod Limits
mod Packets
mod Translator
mod Messages
mod Retries
mod Choice
mod Addresses
mod Gateway
