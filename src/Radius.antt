-- ===== src/Radius.antt =====
-- RADIUS: internal/radius.
pub mod Cache
pub mod Attribute
pub mod Packet
pub mod Vendor
pub mod Crypto
pub mod Challenges
pub mod Sessions
