-- ===== src/Public.antt =====
-- The service public: the mails of the players, and the cache of its players.
pub mod Mail
pub mod Players
