-- ===== src/Server.antt =====
-- internal/server: the side that takes the lanes' packets to the backend and the replies back.
pub mod Backend
pub mod Reorder
pub mod Lanes
pub mod Traffic
pub mod Life
pub mod Writer
pub mod Sessions
mod Tests
