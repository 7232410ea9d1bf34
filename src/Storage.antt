-- ===== src/Storage.antt =====
-- src/forge/storage: the metastore and the directory stores.
pub mod Rows
pub mod MetaStore
pub mod WorkspaceStore
pub mod SnapshotStore
pub mod ArtifactStore
