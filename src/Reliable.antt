-- ===== src/Reliable.antt =====
-- The reliable control messages (src/net/reliable.rs).
pub mod Timer
pub mod Channel
pub mod Tick
pub mod Heap
pub mod Due
pub mod Steps
pub mod Sweep
pub mod Loop
pub mod Run
pub mod History
pub mod Delivery
pub mod Answers
mod Tests
