-- ===== src/Cache.antt =====
-- The caches of packages/runtime/src/cache and packages/api/src/cache.
pub mod Ttl
