-- ===== src/Services/Files.antt =====
-- src/forge/services/files_service.py.
pub mod Paths
pub mod Host
pub mod Ops
pub mod Resolved
pub mod Confined
pub mod Kept
pub mod WriteRead
pub mod Uploads
pub mod Hosts
pub mod Service
pub mod Pages
pub mod Editing
pub mod Search
pub mod Found
pub mod Leaks
mod Examples
