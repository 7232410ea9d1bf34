-- ===== src/Services.antt =====
-- src/forge/services: what the HTTP layer and the local client call.
pub mod World
pub mod Workspaces
pub mod Executions
pub mod Snapshots
pub mod Artifacts
pub mod Files
mod Examples
