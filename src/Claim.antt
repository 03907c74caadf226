-- ===== src/Claim.antt =====
-- Self-claimed addresses and the gossip about them (src/net/claim.rs, src/net/claim_gossip.rs).
pub mod Vip
pub mod Gossip
pub mod Merge
pub mod Removal
pub mod Settle
pub mod Order
pub mod Winner
mod Tests
