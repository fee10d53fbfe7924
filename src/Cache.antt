-- ===== src/Cache.antt =====
-- The crate cache: what the services share of a player, and of themselves, through Redis.
pub mod Online
pub mod ServiceOnline
