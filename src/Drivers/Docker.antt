-- ===== src/Drivers/Docker.antt =====
-- src/forge/drivers/docker_driver.py.
pub mod Containers
pub mod Exec
pub mod Limits
pub mod Rollback
pub mod Output
mod Examples
