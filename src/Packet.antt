-- ===== src/Packet.antt =====
-- Datagrams and compound control bodies (src/net/packet.rs).
pub mod Datagram
pub mod Mctl
mod Tests
