-- ===== src/Http.antt =====
-- src/protocol/http: HTTP/1.1.
pub mod HeaderTable
pub mod Exchange
pub mod RequestLine
pub mod Headers
pub mod Body
pub mod Read
pub mod Session
mod Tests
mod ParseTests
mod ReadTests
pub mod Response
pub mod Write
mod ResponseTests
