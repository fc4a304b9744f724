-- ===== src/Storage.antt =====
-- The event store of the relay (src/storage): the index, the consensus rules, the queries.
pub mod Indexes
pub mod Store
pub mod Query
pub mod Bootstrap
pub mod Client
