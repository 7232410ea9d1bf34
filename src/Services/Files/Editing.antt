-- ===== src/Services/Files/Editing.antt =====
-- `edit` of src/forge/services/files_service.py.
use xforgebox.Base.{
  ◌<◌, String, Bool, true, false, some, nat_eq, list_eq, ◌≡◌, refl, arith, ◌⊎◌, length,
}
use xforgebox.Errors.{ok, err, workspace_error}
use xforgebox.Models.{Text}
use xforgebox.Strings.Replace.{parts, rejoin, replace-rejoin}
use xforgebox.Strings.Utf8.{Bytes, encode, encodable}
use xforgebox.Services.Files.Paths.{AbsPath}
use xforgebox.Services.Files.Host.{file, Tree, Os, put, stat, is_file, write_bytes}
use xforgebox.Services.Files.Ops.{resolve_for_read, read_text, edited, write_text, edit}

-- The file that a path leads to, and the text that `read_text` makes of it.
abbrev pub IsTextAt : Os → String → Text → Tree → AbsPath → Text → Type 0
IsTextAt os ws path t target text =
    (resolve_for_read os ws path t ≡ ok target)
    × ((raw : Bytes) × (t target ≡ some (file raw)) × (read_text target t ≡ ok text))

edited-rejoin :
    (old new text : Text) (all : Bool)
    → 0 < length old
    → let ps = parts old 0 text in
      0 < length ps.1
      → (all ≡ true) ⊎ (length ps.1 ≡ 1)
      → edited old new all text ≡ ok (rejoin new ps, length ps.1)
unfolding edited
edited-rejoin old new text all h some_places allowed =
    let (_, counted, replaced, once) = replace-rejoin old new text h in
    rw (edited, counted, replaced) (ground arith)

edited-refused :
    (old new text : Text) (all : Bool)
    → 0 < length old
    → let ps = parts old 0 text in
      (length ps.1 ≡ 0) ⊎ ((all ≡ false) × (1 < length ps.1))
      → edited old new all text ≡ err workspace_error
unfolding edited
edited-refused old new text all h refused =
    let (_, counted, _, _) = replace-rejoin old new text h in rw (edited, counted) (ground arith)

written :
    (target : AbsPath) (raw : Bytes) (text : Text) (t : Tree)
    → t target ≡ some (file raw)
    → encodable text ≡ true
    → write_text target text t ≡ (ok tt, put target (some (file (encode text))) t)
unfolding write_text write_bytes
written target raw text t at has = rw (write_text, has, write_bytes, at) refl

-- An edit of a file whose text has `old` in it, at one place, or at any number of places if all are
-- to be replaced: it returns the number of places and writes the parts of the text between them
-- with `new` between each two. The same parts with `old` between them are the text. (`old` is not
-- empty, the new text has an encoding, and the text of a file has line feeds as ends of lines.)
pub edit_replaces :
    (os : Os) (ws : String) (path old new : Text) (all : Bool) (t : Tree) (target : AbsPath)
    (text : Text)
    → IsTextAt os ws path t target text
    → 0 < length old
    → let ps = parts old 0 text in
      0 < length ps.1
      → (all ≡ true) ⊎ (length ps.1 ≡ 1)
      → encodable (rejoin new ps) ≡ true
      → (edit os ws path old new all t
          ≡ (ok (length ps.1), put target (some (file (encode (rejoin new ps)))) t))
        × (rejoin old ps ≡ text)
unfolding edit
edit_replaces os ws path old new all t target text (r, (raw, at, is_text)) h places allowed has =
    let is_there : is_file t target ≡ true = rw (is_file, stat, at) refl in
    (
      rw
          (
            edit,
            r,
            is_there,
            is_text,
            edited-rejoin old new text all h places allowed,
            written target raw (rejoin new (parts old 0 text)) t at has,
          )
          refl,
      (replace-rejoin old new text h).0,
    )

-- An edit whose `old` (not empty) is not in the text, or is there more than once and not all are to
-- be replaced, raises `WorkspaceError` and changes nothing.
pub edit_refuses :
    (os : Os) (ws : String) (path old new : Text) (all : Bool) (t : Tree) (target : AbsPath)
    (text : Text)
    → IsTextAt os ws path t target text
    → 0 < length old
    → let ps = parts old 0 text in
      (length ps.1 ≡ 0) ⊎ ((all ≡ false) × (1 < length ps.1))
      → edit os ws path old new all t ≡ (err workspace_error, t)
unfolding edit
edit_refuses os ws path old new all t target text (r, (raw, at, is_text)) h refused =
    let is_there : is_file t target ≡ true = rw (is_file, stat, at) refl in
    rw (edit, r, is_there, is_text, edited-refused old new text all h refused) refl
