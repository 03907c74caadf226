-- ===== src/Msyn.antt =====
-- The synchronisation of status (src/net/msyn_sync.rs).
pub mod Epoch
pub mod Shard
pub mod Assemble
pub mod Contents
pub mod Packing
pub mod Refusal
pub mod Buffers
pub mod Ingest
pub mod Values
pub mod Rejoin
pub mod Arrival
mod Tests
