-- ===== src/Storage/WorkspaceStore.antt =====
-- src/forge/storage/workspace_store.py. The disk under `<data_root>/workspaces` is the list of its
-- workspace directories and the list of the files in them; the directories between a workspace
-- and its files are not modelled.
use xforgebox.Base.{
  String, Bool, not, ◌||◌, List, [], ◌∷◌, if◌then◌else◌, ◌==◌, contains, string_eq, leb, keep_if,
}
use xforgebox.Models.{Text}
use xforgebox.Errors.{Result, ok, err, workspace_error, os_error}
use Prim.Native.String.{find, len}

pub record File : Type 0 where
  pub workspace : String
  pub path : String
  pub contents : Text

pub record Disk : Type 0 where
  pub dirs : List String
  pub files : List File

-- The answers of the operating system: `mkdir` of the directory and of `.forge/exec` in it, and
-- `rmtree`, which may fail when it has removed some of the files.
pub data Rmtree : Type 0 where
  removed : Rmtree
  stopped : List File → Rmtree

pub record Syscalls : Type 0 where
  pub mkdir : Bool
  pub mkdir_meta : Bool
  pub rmtree : Rmtree

-- `part in text`: `find` returns a position past the end where there is none.
abbrev occurs : String → String → Bool
occurs part text = leb (find text part) (len text)

-- `_validate_workspace_id`
unfoldable pub valid_workspace_id : String → Bool
unfolding string_eq
valid_workspace_id id =
    not (id == "" || occurs "/" id || occurs "\\" id || contains ("." ∷ ".." ∷ []) id)

-- The path of a workspace is its id under the root.
unfoldable pub path : String → Result String
unfolding valid_workspace_id
path id = if valid_workspace_id id then ok id else err workspace_error

abbrev pub in_workspace : String → File → Bool
in_workspace id f = f.workspace == id

-- The directory is made first: it stays if `.forge/exec` cannot be made.
unfoldable pub create : Syscalls → String → Disk → Result String × Disk
unfolding valid_workspace_id
create sys id d =
    if not (valid_workspace_id id)
    then (err workspace_error, d)
    else if contains d.dirs id
    then (err workspace_error, d)
    else if not sys.mkdir
    then (err os_error, d)
    else if not sys.mkdir_meta
    then (err os_error, record d { dirs = id ∷ d.dirs })
    else (ok id, record d { dirs = id ∷ d.dirs })

abbrev pub remove_dir : String → List String → List String
remove_dir id = keep_if (λ x. not (x == id))

abbrev pub remove_files : String → List File → List File
remove_files id = keep_if (λ f. not (in_workspace id f))

abbrev pub removal : Rmtree → String → Disk → Result (Unit {0}) × Disk
removal removed id d =
    (ok tt, record { dirs = remove_dir id d.dirs; files = remove_files id d.files })
removal (stopped left) id d = (err os_error, record d { files = left })

unfoldable pub delete : Syscalls → String → Disk → Result (Unit {0}) × Disk
unfolding valid_workspace_id
delete sys id d =
    if not (valid_workspace_id id)
    then (err workspace_error, d)
    else if not (contains d.dirs id)
    then (ok tt, d)
    else removal sys.rmtree id d

unfoldable pub exists : String → Disk → Result Bool
unfolding valid_workspace_id
exists id d = if valid_workspace_id id then ok (contains d.dirs id) else err workspace_error
