-- ===== src/Broadcast.antt =====
-- The deduplication of broadcasts (src/bcast.rs).
pub mod Dedup
pub mod Stale
mod Tests
