-- ===== src/Gate.antt =====
-- The service gate: the streams of its clients.
pub mod Session
pub mod Sessions
pub mod Gateway
