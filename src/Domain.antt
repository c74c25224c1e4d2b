-- ===== src/Domain.antt =====
-- The protocol-neutral types of internal/domain.
pub mod Error
pub mod AvPair
