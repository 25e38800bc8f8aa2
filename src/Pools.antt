-- ===== src/Pools.antt =====
-- backend/src/db: the pool of database connections and the pool of worker threads.
pub mod Connections
pub mod Workers
pub mod Examples
