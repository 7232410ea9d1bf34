-- ===== src/Storage/SnapshotStore.antt =====
-- src/forge/storage/snapshot_store.py. An archive holds the files of a workspace in the order of
-- the disk's list; one whose writing broke off cannot be read. Directories and symbolic links are
-- not modelled, and tar and zstandard give back what they were given.
use xforgebox.Base.{
  ℕ, String, Bool, not, Option, none, some, List, ◌∷◌, if◌then◌else◌, ◌==◌, contains, keep_if, map,
  string_eq, nat_eq,
}
use Prim.Native.String.{find}
use xforgebox.Errors.{Result, ok, err, snapshot_error, os_error}
use xforgebox.Models.{Text, Snapshot, aware}
use xforgebox.Storage.WorkspaceStore.{File, Disk, in_workspace}

pub record Entry : Type 0 where
  pub name : String
  pub text : Text

pub record Archive : Type 0 where
  pub id : String
  pub entries : Option (List Entry)

-- What the system does with a write of an archive, a removal, and an extraction that may break
-- off when some files have been extracted.
pub data Packing : Type 0 where
  packed : ℕ → Packing
  torn unopened : Packing

pub data Unpacking : Type 0 where
  unpacked : Unpacking
  broken : List Entry → Unpacking

-- `any(rel.startswith(pfx) for pfx in _EXCLUDE_PREFIXES)`
unfoldable pub is_excluded : String → Bool
unfolding nat_eq
is_excluded rel = find rel ".forge/exec/" == 0

abbrev pub entry_of : File → Entry
entry_of f = record { name = f.path; text = f.contents }

unfoldable pub packed_files : String → List File → List Entry
unfolding is_excluded string_eq
packed_files ws files =
    map entry_of (keep_if (λ f. not (is_excluded f.path)) (keep_if (in_workspace ws) files))

abbrev pub archive_is : String → Archive → Bool
archive_is id a = a.id == id

-- `open("wb")` on a name that is new, since `uuid4` makes it.
abbrev pub written_archive : Packing → String → List Entry → List Archive → Result ℕ × List Archive
written_archive (packed size) id es kept = (ok size, record { id = id; entries = some es } ∷ kept)
written_archive torn id es kept = (err snapshot_error, record { id = id; entries = none } ∷ kept)
written_archive unopened id es kept = (err snapshot_error, kept)

abbrev pub snapshot_of : String → String → ℕ → Option String → ℕ → Snapshot
snapshot_of id ws now name size = record {
  id = id;
  workspace_id = ws;
  name = name;
  format = "tar.zst";
  size_bytes = size;
  parent_id = none;
  created_at = aware now;
}

-- `create`: the directory of the workspace has to be there.
unfoldable pub create :
    Packing → String → ℕ → String → Option String → Disk → List Archive → Result ℕ × List Archive
unfolding packed_files
create packing id now ws name disk kept =
    if contains disk.dirs ws
    then written_archive packing id (packed_files ws disk.files) kept
    else (err snapshot_error, kept)

-- `delete`: `unlink(missing_ok=True)`
unfoldable pub delete : Bool → String → List Archive → Result (Unit {0}) × List Archive
delete can id kept =
    if can then (ok tt, keep_if (λ a. not (archive_is id a)) kept) else (err os_error, kept)
