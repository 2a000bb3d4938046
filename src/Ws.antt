-- ===== src/Ws.antt =====
-- src/protocol/ws: RFC 6455 WebSockets.
pub mod Session
pub mod Unmask
pub mod Header
pub mod Parse
pub mod Client
pub mod Conn
mod Tests
