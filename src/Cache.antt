-- ===== src/Cache.antt =====
-- The cache of the service (src/infra/cache).
pub mod Memory
pub mod Latest
mod Tests
