-- ===== src/Logic.antt =====
-- The service logic: the players and their items, and the runtime that serializes their calls.
pub mod Player
pub mod Runtime
pub mod Handlers
