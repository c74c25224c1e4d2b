-- ===== src/Events.antt =====
-- Operational events: internal/events.
pub mod Event
pub mod Ring
pub mod Read
