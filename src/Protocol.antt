-- ===== src/Protocol.antt =====
-- The crate protocol: message ids and status codes.
pub mod Message
pub mod Code
pub mod Status
