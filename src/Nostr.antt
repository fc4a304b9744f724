-- ===== src/Nostr.antt =====
-- Events and filters of the protocol (src/nostr).
pub mod Json
pub mod Event
pub mod Filter
pub mod Deletion
pub mod Protected
pub mod Auth
