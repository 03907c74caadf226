-- ===== src/Pmtud.antt =====
-- Path MTU discovery (src/pmtud.rs): the state, the functions on one peer, the operations on the
-- table of peers, and below them what is proved.
pub mod State
pub mod Peer
pub mod Fail
pub mod Probe
pub mod Tick
pub mod Ack
pub mod Setup
pub mod Inv
pub mod FailInv
pub mod ProbeInv
pub mod TickInv
pub mod GraceInv
pub mod AckInv
pub mod Run
pub mod Exchange
pub mod Turns
pub mod Window
pub mod Search
pub mod Answers
pub mod Limits
pub mod Pinned
pub mod Issued
mod Tests
