-- ===== src/Policy.antt =====
-- Authorization policy: internal/policy.
pub mod Types
pub mod Compile
pub mod Response
pub mod Evaluate
