-- ===== src/Lru2.antt =====
-- The two-level cache of store/lru2: its helpers, one bucket, one pair of buckets, and the cache.
pub mod Bucket
pub mod Clock
mod Tests
mod StoreTests
pub mod Utils
pub mod Shard
pub mod Store
