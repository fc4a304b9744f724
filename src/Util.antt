-- ===== src/Util.antt =====
-- The helpers under src/util, and the maps that the other modules keep their state in.
pub mod Maps
pub mod RateLimit
pub mod Invite
