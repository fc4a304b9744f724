-- ===== src/Swarm.antt =====
-- The swarm: admission of writers over a connection.
pub mod Admission
