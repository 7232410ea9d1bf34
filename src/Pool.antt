-- ===== src/Pool.antt =====
-- src/forge/pool/container_pool.py: per-image pools of warm environments.
pub mod Defs
pub mod Tasks
pub mod Turns
pub mod System
pub mod Safety
pub mod Lost
pub mod Lock
pub mod Progress
pub mod Overshoot
pub mod Reaper
pub mod Lifecycle
mod Examples
