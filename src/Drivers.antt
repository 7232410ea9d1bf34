-- ===== src/Drivers.antt =====
-- src/forge/drivers: what runs commands in containers.
pub mod Docker
