-- ===== src/Client.antt =====
-- internal/client: the side that accepts UDP datagrams and carries them over TCP lanes.
pub mod Receive
pub mod Ring
pub mod Backoff
pub mod Upstream
pub mod Downlink
pub mod Sessions
pub mod LaneControl
pub mod Send
pub mod Writes
pub mod Downstream
mod Tests
