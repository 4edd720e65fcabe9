-- ===== src/Protocol.antt =====
-- internal/protocol: the packet header, the lane control payload and the stream framer.
pub mod Error
pub mod Packet
pub mod Control
pub mod Stream
mod Tests
