-- ===== src/Services/Snapshots/Restore.antt =====
-- `restore` of src/forge/services/snapshot_service.py and of src/forge/storage/snapshot_store.py.
use xforgebox.Base.{
  ℕ, String, Bool, Option, none, some, List, [], ◌∷◌, if◌then◌else◌, string_eq, contains,
}
use xforgebox.Errors.{Result, ok, err, snapshot_error, os_error}
use xforgebox.Models.{Workspace}
use xforgebox.Storage.Rows.{first}
use xforgebox.Storage.MetaStore.Ledgers.{get_snapshot}
use xforgebox.Storage.WorkspaceStore.{
  File, Disk, Syscalls, Rmtree, removed, stopped, path, remove_dir, remove_files,
}
use xforgebox.Storage.SnapshotStore.{Entry, Archive, Unpacking, unpacked, broken, archive_is}
use xforgebox.Services.World.{Await, Over, next, ◌▷◌, returns, raises, on_meta, on_disk}
use xforgebox.Services.Workspaces as Workspaces
use xforgebox.Services.Executions.{put_file}
use xforgebox.Services.Snapshots.{Vault, on_world, checked_path}

-- What the system answers in the course of a restoration: to `create` (with its
-- `await`) and `delete` of the workspaces, to `rmtree` and `mkdir` of `ensure_dir_empty`, to the extraction and to the last
-- `mkdir`.
pub record Steps : Type 0 where
  pub calls : Syscalls
  pub stored : Await
  pub emptied : Rmtree
  pub made_again : Bool
  pub unpacking : Unpacking
  pub meta_made : Bool
  pub now : ℕ
  pub deleted_at : ℕ

-- `ensure_dir_empty`: the new workspace has `.forge` in it, so that it is removed and made again.
unfoldable pub ensure_dir_empty : Steps → String → Disk → Result (Unit {0}) × Disk
ensure_dir_empty s id d = elim s.emptied [
  | stopped left ↦ (err os_error, record d { files = left })
  | removed ↦
      if s.made_again
      then (ok tt, record d { files = remove_files id d.files })
      else (err os_error, record { dirs = remove_dir id d.dirs; files = remove_files id d.files })
]

unfoldable pub put_entries : String → List Entry → List File → List File
unfolding put_file
put_entries ws [] files = files
put_entries ws (e ∷ es) files = put_entries ws es (put_file ws e.name e.text files)

-- `_read_archive` of an archive that can be read.
abbrev pub extracted : Unpacking → String → List Entry → Disk → Result (Unit {0}) × Disk
extracted unpacked ws es d = (ok tt, record d { files = put_entries ws es d.files })
extracted (broken part) ws es d =
    (err snapshot_error, record d { files = put_entries ws part d.files })

abbrev pub read_archive : Unpacking → String → Option Archive → Disk → Result (Unit {0}) × Disk
read_archive u ws none d = (err snapshot_error, d)
read_archive u ws (some a) d = elim a.entries [
  | none ↦ (err snapshot_error, d)
  | some es ↦ extracted u ws es d
]

-- `SnapshotStore.restore`
unfoldable pub restore_archive :
    Unpacking → List Archive → String → String → Disk → Result (Unit {0}) × Disk
unfolding put_entries first
restore_archive u archives id ws d =
    if contains d.dirs ws
    then read_archive u ws (first (archive_is id) archives) d
    else (err snapshot_error, d)

-- `except SnapshotError`: the new workspace is deleted; what that raises comes instead.
abbrev pub undo_restore : Steps → String → Result (Unit {0}) × Vault → Result (Unit {0}) × Vault
undo_restore s id (err snapshot_error, v) =
    next (on_world (Workspaces.delete s.calls s.deleted_at id) v) (λ _. raises snapshot_error)
undo_restore s id (err e, v) = (err e, v)
undo_restore s id (ok u, v) = (ok u, v)

abbrev pub unpack : Steps → String → String → Over Vault (Unit {0})
unpack s snap new v =
    undo_restore s new (on_world (on_disk (restore_archive s.unpacking v.archives snap new)) v)

-- `_ensure_forge_meta`
abbrev pub ensure_forge_meta : Steps → Over Vault (Unit {0})
ensure_forge_meta s v = if s.meta_made then (ok tt, v) else (err os_error, v)

-- `_copy_spec` gives an equal specification.
unfoldable pub restore :
    Steps → String → String → Option String → List (String × String) → Over Vault Workspace
unfolding get_snapshot Workspaces.get Workspaces.create Workspaces.delete path ensure_dir_empty
    restore_archive
restore s new snap name metadata =
    on_world (on_meta (get_snapshot snap))
    ▷ (λ row. on_world (Workspaces.get row.workspace_id))
    ▷ (λ source. on_world (Workspaces.create s.calls s.stored new s.now source.spec name metadata))
    ▷ (λ ws.
        checked_path ws.id
        ▷ (λ _. on_world (on_disk (ensure_dir_empty s ws.id)))
        ▷ (λ _. unpack s snap ws.id)
        ▷ (λ _. ensure_forge_meta s)
        ▷ (λ _. returns ws))
