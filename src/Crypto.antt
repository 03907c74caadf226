-- ===== src/Crypto.antt =====
-- Replay windows, wire counters, sealed frames and invitations (src/crypto.rs).
pub mod Window
pub mod Replay
pub mod Sources
pub mod Wire
pub mod Frame
mod Tests
