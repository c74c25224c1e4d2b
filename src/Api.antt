-- ===== src/Api.antt =====
-- The management API of internal/api.
pub mod Idempotency
