-- ===== src/Tests.antt =====
-- Tests of the definitions and instances of the theorems, on small inputs.
pub mod Data
mod Deletions
mod Authority
mod Query
mod RateLimit
mod Wot
mod Invite
mod Admission
mod Light
mod Lru
mod Bootstrap
mod Keys
mod Nostr
mod Store
mod Ws
mod Shim
