-- ===== src/EndToEnd.antt =====
-- What the client sends over a connection of a downstream lane, as the server understands it.
pub mod Registration
pub mod Upstream
pub mod Downstream
mod Tests
