-- ===== src/Tests.antt =====
-- Concrete runs, and the theorems at concrete inputs.
mod Wire
mod Session
mod Rules
mod Caches
mod Datagrams
mod Rings
mod States
mod Servers
mod Matchers
mod Indexes
mod Replays
