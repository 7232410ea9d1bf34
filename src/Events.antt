-- ===== src/Events.antt =====
-- src/forge/events
pub mod Bus
