-- ===== src/Services/Snapshots.antt =====
-- src/forge/services/snapshot_service.py. A vault is the world with the archives beside it.
pub mod Restore
pub mod Sync
use xforgebox.Base.{
  ℕ, String, Bool, true, false, not, Option, none, some, List, [], ◌∷◌, if◌then◌else◌, ◌==◌,
  string_eq,
}
use xforgebox.Errors.{Result, ok, err, Exception, snapshot_error, os_error, cancelled_error}
use xforgebox.Models.{Snapshot, Workspace, WorkspaceSpec}
use xforgebox.Storage.Rows.{first}
use xforgebox.Storage.MetaStore.{MetaStore}
use xforgebox.Storage.MetaStore.Ledgers.{create_snapshot, get_snapshot, list_snapshots}
use xforgebox.Storage.WorkspaceStore.{
  File, Disk, Syscalls, Rmtree, removed, stopped, path, remove_dir, remove_files,
}
use xforgebox.Storage.SnapshotStore.{
  Entry, Archive, Packing, Unpacking, unpacked, broken, archive_is, snapshot_of,
}
use xforgebox.Storage.SnapshotStore as Store
use xforgebox.Services.World.{World, Over, Action, next, ◌▷◌, returns, raises, on_meta}
use xforgebox.Services.Workspaces as Workspaces
use xforgebox.Services.Executions.{put_file}

pub record Vault : Type 0 where
  pub world : World
  pub archives : List Archive

abbrev pub on_world : {A : Type 0} → Action A → Over Vault A
on_world call v = let out = call v.world in (out.0, record v { world = out.1 })

abbrev pub on_archives : {A : Type 0} → (List Archive → Result A × List Archive) → Over Vault A
on_archives call v = let out = call v.archives in (out.0, record v { archives = out.1 })

-- `path`, which only checks the id.
abbrev pub checked_path : String → Over Vault String
checked_path id v = (path id, v)

-- The row is inserted; if that raises, the archive is removed, but not for a cancellation.
abbrev pub undo_archive : Bool → String → Result (Unit {0}) × Vault → Result (Unit {0}) × Vault
undo_archive can id (ok u, v) = (ok u, v)
undo_archive can id (err cancelled_error, v) = (err cancelled_error, v)
undo_archive can id (err e, v) = next (on_archives (Store.delete can id) v) (λ _. raises e)

abbrev pub store_row : Bool → Snapshot → Over Vault Snapshot
store_row can snap v =
    next (undo_archive can snap.id (on_world (on_meta (create_snapshot snap)) v))
      (λ _. returns snap)

unfoldable pub create : Packing → Bool → String → ℕ → String → Option String → Over Vault Snapshot
unfolding Workspaces.get path Store.create Store.delete create_snapshot
create packing can id now ws name = on_world (Workspaces.get ws) ▷ (λ row. checked_path ws ▷ λ _ v.
    next (on_archives (Store.create packing id now row.id name v.world.disk) v)
      λ size. store_row can (snapshot_of id row.id now name size))

unfoldable pub get : String → Over Vault Snapshot
unfolding get_snapshot
get id = on_world (on_meta (get_snapshot id))

unfoldable pub list : String → Over Vault (List Snapshot)
unfolding list_snapshots
list ws = on_world (on_meta (list_snapshots ws))
