-- ===== src/Shim.antt =====
-- The adapter under src/primal-shim.
pub mod Lru
pub mod Marks
pub mod Notifications
pub mod Session
pub mod Stats
pub mod Upstream
