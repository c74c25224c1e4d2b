-- ===== src/Config.antt =====
-- The client matchers of internal/config.
pub mod Network
pub mod Match
pub mod MatchRadius
