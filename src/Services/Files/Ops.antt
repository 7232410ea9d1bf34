-- ===== src/Services/Files/Ops.antt =====
-- `FilesService` of src/forge/services/files_service.py, but for its searches.
use xforgebox.Base.{
  ℕ, String, Bool, true, false, not, ◌||◌, ◌&&◌, Option, none, some, List, [], ◌∷◌, ◌++◌, ◌+◌,
  if◌then◌else◌, ◌==◌, nat_eq, list_eq, ltb, length, take, drop, contains,
}
use xforgebox.Errors.{
  Result, ok, err, ◌>>=◌, ◌>>◌, os_error, workspace_error, path_escape_error, value_error,
}
use xforgebox.Models.{DateTime, Text, ℤ, pos, negsuc}
use xforgebox.Strings.Lines.{split_lines, join}
use xforgebox.Strings.Replace.{begins, count_in, replace_all, replace_one}
use xforgebox.Strings.Utf8.{encode, encodable, decode, decode_strict}
use xforgebox.Storage.WorkspaceStore.{valid_workspace_id}
use xforgebox.Services.World.{Over, next, ◌▷◌, returns, raises}
use xforgebox.Services.Executions.{newlines}
use xforgebox.Services.Files.Paths.{
  AbsPath, codes, components, is_absolute, as_posix, relative_to, is_reserved, sort,
}
use xforgebox.Services.Files.Host.{
  file, dir, link, Tree, Os, put, stat, exists, is_dir, is_file, read_bytes, make_parents,
  write_bytes,
}

-- What only reads the disk.
abbrev pub reads : {A : Type 0} → (Tree → Result A) → Over Tree A
reads call t = (call t, t)

-- `_workspace_root`
unfoldable pub workspace_root : Os → String → Tree → Result AbsPath
unfolding valid_workspace_id stat
workspace_root os ws t =
    if not (valid_workspace_id ws)
    then err workspace_error
    else os.realpath t os.workspaces (codes ws ∷ []) >>= λ root.
        if is_dir t root then ok root else err workspace_error

abbrev shown : AbsPath → Text
shown p = b'/' ∷ as_posix p

-- `_ensure_within`
unfoldable pub ensure_within : AbsPath → AbsPath → Result (Unit {0})
unfolding relative_to begins as_posix
ensure_within candidate root = elim (relative_to root candidate) [
  | none ↦ err path_escape_error
  | some rel ↦ if begins (shown root) (shown candidate) then ok tt else err path_escape_error
]

-- `_resolve`
unfoldable pub resolve : Os → String → Text → Tree → Result AbsPath
unfolding workspace_root ensure_within is_absolute components
resolve os ws path t =
    if is_absolute path
    then err path_escape_error
    else workspace_root os ws t >>= λ root. os.realpath t root (components path) >>= λ candidate.
        ensure_within candidate root >> ok candidate

-- `_resolve_for_read`
unfoldable pub resolve_for_read : Os → String → Text → Tree → Result AbsPath
unfolding resolve workspace_root relative_to is_reserved
resolve_for_read os ws path t = resolve os ws path t >>= λ resolved.
    workspace_root os ws t >>= λ root. elim (relative_to root resolved) [
      | none ↦ err path_escape_error
      | some rel ↦ if is_reserved rel then err path_escape_error else ok resolved
    ]

-- `FileListEntry`
pub record FileListEntry : Type 0 where
  pub name : Text
  pub path : Text
  pub is_dir : Bool
  pub size_bytes : ℕ
  pub modified_at : DateTime

-- `stat` of a child, which raises for a link that leads nowhere.
unfoldable pub list_entry : Os → List Text → AbsPath → Text → Tree → Result FileListEntry
unfolding stat as_posix
list_entry os rel p name t = elim (stat t p) [
  | none ↦ err os_error
  | some n ↦ elim n [
    | file b ↦ ok (entry false (length b))
    | dir ↦ ok (entry true (os.dir_size p))
    | link q ↦ err os_error
  ]
]
  where
    entry : Bool → ℕ → FileListEntry
    entry directory size = record {
      name = name;
      path = as_posix rel;
      is_dir = directory;
      size_bytes = size;
      modified_at = os.modified_at p;
    }

unfoldable pub list_entries :
    Os → AbsPath → AbsPath → List Text → Tree → Result (List FileListEntry)
unfolding list_entry relative_to is_reserved
list_entries os root target [] t = ok []
list_entries os root target (name ∷ names) t =
    let rest = list_entries os root target names t in
    let p = target ++ name ∷ [] in
    elim (relative_to root p) [
      | none ↦ err value_error
      | some rel ↦
          if is_reserved rel
          then rest
          else list_entry os rel p name t >>= λ entry. rest >>= λ entries. ok (entry ∷ entries)
    ]

-- `ls`
unfoldable pub ls : Os → String → Text → Tree → Result (List FileListEntry)
unfolding resolve_for_read list_entries stat sort
ls os ws path t = resolve_for_read os ws path t >>= λ target.
    if not (exists t target) || not (is_dir t target)
    then err workspace_error
    else workspace_root os ws t >>= λ root. list_entries os root target (sort (os.scan t target)) t

-- `lines[offset : offset + limit]`
unfoldable pub window : {A : Type 0} → ℕ → Option ℕ → List A → List A
window offset none lines = drop offset lines
window offset (some limit) lines = take limit (drop offset lines)

-- What `read` returns of the lines of a file.
unfoldable pub page : ℤ → Option ℕ → List Text → Result (Text × ℕ × Bool)
unfolding window join
page (negsuc n) limit lines = err workspace_error
page (pos offset) limit lines = ok (
  join (window offset limit lines),
  length lines,
  elim limit [ none ↦ false | some n ↦ ltb (offset + n) (length lines) ],
)

-- `read`. The HTTP route sees to it that a limit is positive.
unfoldable pub read : Os → String → Text → ℤ → Option ℕ → ℕ → Tree → Result (Text × ℕ × Bool)
unfolding resolve_for_read stat nat_eq decode split_lines page
read os ws path offset limit max_bytes t = resolve_for_read os ws path t >>= λ target.
    if not (exists t target) || is_dir t target
    then err workspace_error
    else read_bytes t target >>= λ raw.
        if ltb max_bytes (length raw) || contains raw 0
        then err workspace_error
        else page offset limit (split_lines (decode raw))

-- `write_text`: the file is emptied before a text that has no encoding raises.
unfoldable pub write_text : AbsPath → Text → Over Tree (Unit {0})
unfolding write_bytes encode encodable
write_text p text =
    if encodable text
    then write_bytes p (encode text)
    else write_bytes p [] ▷ λ _. raises value_error

-- Is a path in the reserved directory of the workspace?
unfoldable pub in_reserved : AbsPath → AbsPath → Bool
unfolding relative_to is_reserved
in_reserved root target = elim (relative_to root target) [
  | none ↦ false
  | some rel ↦ is_reserved rel
]

-- `parent.mkdir`: the workspace itself is a directory.
unfoldable pub make_parents_in : AbsPath → AbsPath → Over Tree (Unit {0})
unfolding relative_to make_parents
make_parents_in root target = elim (relative_to root target) [
  | none ↦ returns tt
  | some rel ↦ make_parents root rel
]

-- `write`
unfoldable pub write : Os → String → Text → Text → Over Tree (Unit {0})
unfolding resolve workspace_root in_reserved make_parents_in write_text
write os ws path content = reads (resolve os ws path) ▷ λ target.
    reads (workspace_root os ws) ▷ λ root.
    if in_reserved root target
    then raises path_escape_error
    else make_parents_in root target ▷ λ _. write_text target content

-- `read_text`: every end of a line becomes a line feed.
unfoldable pub read_text : AbsPath → Tree → Result Text
unfolding stat decode_strict newlines
read_text p t = read_bytes t p >>= λ raw. elim (decode_strict raw) [
  | none ↦ err value_error
  | some text ↦ ok (newlines false text)
]

-- The new text of an edit, and the number of replacements.
unfoldable pub edited : Text → Text → Bool → Text → Result (Text × ℕ)
unfolding nat_eq count_in replace_all replace_one
edited old new all text =
    let n = count_in old text in
    if n == 0
    then err workspace_error
    else if not all && ltb 1 n
    then err workspace_error
    else if all
    then ok (replace_all old new text, n)
    else ok (replace_one old new text, 1)

-- `edit`
unfoldable pub edit : Os → String → Text → Text → Text → Bool → Over Tree ℕ
unfolding resolve_for_read stat read_text edited write_text
edit os ws path old new all = reads (resolve_for_read os ws path) ▷ λ target t.
    if not (is_file t target)
    then raises workspace_error t
    else next (reads (read_text target) t) λ text.
      reads (λ _. edited old new all text) ▷ λ out. write_text target (out.0) ▷ λ _. returns (out.1)

-- `rmdir`, which raises where something is in the directory, or `unlink`.
unfoldable pub remove : Os → AbsPath → Over Tree (Unit {0})
unfolding list_eq nat_eq stat
remove os target t =
    if is_dir t target
    then if os.scan t target == [] then (ok tt, put target none t) else (err workspace_error, t)
    else (ok tt, put target none t)

-- `delete`
unfoldable pub delete : Os → String → Text → Over Tree (Unit {0})
unfolding resolve workspace_root in_reserved stat remove list_eq nat_eq
delete os ws path = reads (resolve os ws path) ▷ λ target. reads (workspace_root os ws) ▷ λ root t.
    if target == root
    then raises workspace_error t
    else if in_reserved root target
    then raises path_escape_error t
    else if exists t target
    then remove os target t
    else returns tt t

-- `UploadItem`
pub record UploadItem : Type 0 where
  pub path : Text
  pub content_b64 : Text

unfoldable pub upload : Os → String → UploadItem → Over Tree Text
unfolding resolve workspace_root in_reserved make_parents_in write_bytes relative_to as_posix
upload os ws item = reads (resolve os ws item.path) ▷ λ target.
    reads (workspace_root os ws) ▷ λ root.
    if in_reserved root target
    then raises path_escape_error
    else elim (os.b64decode item.content_b64) [
      | none ↦ raises workspace_error
      | some blob ↦ make_parents_in root target ▷ λ _. write_bytes target blob ▷ λ _. reads λ _.
          elim (relative_to root target) [ none ↦ err value_error | some rel ↦ ok (as_posix rel) ]
    ]

-- `upload_files`
unfoldable pub upload_files : Os → String → List UploadItem → Over Tree (List Text)
unfolding upload
upload_files os ws [] = returns []
upload_files os ws (item ∷ items) =
    upload os ws item ▷ λ p. upload_files os ws items ▷ λ written. returns (p ∷ written)

unfoldable pub download : Os → String → Text → Tree → Result UploadItem
unfolding resolve_for_read stat
download os ws path t = resolve_for_read os ws path t >>= λ target.
    if not (is_file t target)
    then err workspace_error
    else read_bytes t target >>= λ blob. ok record { path = path; content_b64 = os.b64encode blob }

-- `download_files`
unfoldable pub download_files : Os → String → List Text → Tree → Result (List UploadItem)
unfolding download
download_files os ws [] t = ok []
download_files os ws (path ∷ paths) t =
    download os ws path t >>= λ item. download_files os ws paths t >>= λ items. ok (item ∷ items)
