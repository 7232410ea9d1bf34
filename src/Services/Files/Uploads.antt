-- ===== src/Services/Files/Uploads.antt =====
-- `upload_files` and then `download_files` of src/forge/services/files_service.py.
use xforgebox.Base.{String, false, Option, none, some, ◌≡◌, refl, sym, ap, ◌∙◌, subst}
use xforgebox.Errors.{Result, ok, err, err-ne-ok, value_error, workspace_error}
use xforgebox.Models.{Text}
use xforgebox.Strings.Utf8.{Bytes}
use xforgebox.Services.World.{Over, raises, next, ◌▷◌, next-ok}
use xforgebox.Services.Files.Paths.{AbsPath, components, relative_to, as_posix}
use xforgebox.Services.Files.Host.Safe.{IsPlain}
use xforgebox.Services.Files.Host.{file, Tree, Os, stat, is_file, read_bytes, write_bytes}
use xforgebox.Services.Files.Ops.{
  reads, workspace_root, resolve, in_reserved, make_parents_in, UploadItem, upload, download,
}
use xforgebox.Services.Files.Resolved.{resolve-ok}
use xforgebox.Services.Files.Kept.{KeptAt, store-KeptAt, write_bytes-KeptAt}
use xforgebox.Services.Files.WriteRead.{
  IsLinkReader, reads-ok, unless-ok, made-IsPlain, written-file, still-resolves,
}

-- What follows the write of an upload: the path below the workspace.
abbrev name_below : AbsPath → AbsPath → Over Tree Text
name_below root target =
    reads
      λ _. elim (relative_to root target) [ none ↦ err value_error | some rel ↦ ok (as_posix rel) ]

-- A sequence of two actions and a last step that only reads: the actions have returned if it has.
before-read :
    (m n : Over Tree (Unit {0})) (c : Tree → Result Text) (name : Text) (t u : Tree)
    → (m ▷ λ _. n ▷ λ _. reads c) t ≡ (ok name, u)
    → (m ▷ λ _. n) t ≡ (ok tt, u)
before-read m n c name t u h = first (m t) h
  where
    second :
        (out : Result (Unit {0}) × Tree) → next out (λ _. reads c) ≡ (ok name, u) → out ≡ (ok tt, u)
    second (ok _, v) h1 = ap (λ x. (ok tt, x.1)) h1
    second (err e, v) h1 = absurd (err-ne-ok e name (ap (λ x. x.0) h1))

    first :
        (out : Result (Unit {0}) × Tree)
        → next out (λ _. n ▷ λ _. reads c) ≡ (ok name, u)
        → next out (λ _. n) ≡ (ok tt, u)
    first (ok _, v) h1 = second (n v) h1
    first (err e, v) h1 = absurd (err-ne-ok e name (ap (λ x. x.0) h1))

-- What an upload does once its text is decoded.
abbrev storing : AbsPath → AbsPath → Option Bytes → Over Tree Text
storing root target decoded = elim decoded [
  | none ↦ raises workspace_error
  | some blob ↦
      make_parents_in root target ▷ λ _. write_bytes target blob ▷ λ _. name_below root target
]

storing-ok :
    (root target : AbsPath) (decoded : Option Bytes) (blob : Bytes) (name : Text) (t u : Tree)
    → decoded ≡ some blob
    → storing root target decoded t ≡ (ok name, u)
    → (make_parents_in root target ▷ λ _. write_bytes target blob) t ≡ (ok tt, u)
storing-ok root target decoded blob name t u d h =
    before-read (make_parents_in root target) (write_bytes target blob) _ name t u
      (subst (λ x. storing root target x t ≡ (ok name, u)) d h)

-- An upload that has returned: what it resolved, and what it stored.
upload-ok :
    (os : Os) (ws : String) (item : UploadItem) (blob : Bytes) (name : Text) (t u : Tree)
    → os.b64decode item.content_b64 ≡ some blob
    → upload os ws item t ≡ (ok name, u)
    → (target : AbsPath) × (root : AbsPath) × (resolve os ws item.path t ≡ ok target)
      × (workspace_root os ws t ≡ ok root)
      × (in_reserved root target ≡ false)
      × ((make_parents_in root target ▷ λ _. write_bytes target blob) t ≡ (ok tt, u))
unfolding upload
upload-ok os ws item blob name t u d h =
    let (target, r, h1) = reads-ok (resolve os ws item.path) t u _ name h in
    let (root, w, h2) = reads-ok (workspace_root os ws) t u _ name h1 in
    let (free, stored) = unless-ok (in_reserved root target) _ _ t u name h2 in
    (
      target,
      root,
      r,
      w,
      free,
      storing-ok root target (os.b64decode item.content_b64) blob name t u d stored,
    )

stored-bytes :
    (root target : AbsPath) (blob : Bytes) (t u : Tree)
    → IsPlain (t target)
    → (make_parents_in root target ▷ λ _. write_bytes target blob) t ≡ (ok tt, u)
    → u target ≡ some (file blob)
stored-bytes root target blob t u plain h =
    let (_, w, made, same) =
      next-ok (make_parents_in root target t) (λ _. write_bytes target blob) tt (ap (λ x. x.0) h) in
    written-file target blob w u
      (subst (λ x. IsPlain (x.1 target)) made (made-IsPlain root target t plain)) (sym same ∙ h)

-- What has been uploaded is downloaded as it was.
pub download-upload :
    (os : Os) (ws : String) (item : UploadItem) (blob : Bytes) (name : Text) (t u : Tree)
    → IsLinkReader os
    → os.b64decode item.content_b64 ≡ some blob
    → upload os ws item t ≡ (ok name, u)
    → download os ws item.path u ≡ ok record { path = item.path; content_b64 = os.b64encode blob }
unfolding download stat
download-upload os ws item blob name t u links d h =
    let (target, root, r, w, free, stored) = upload-ok os ws item blob name t u d h in
    let real = (resolve-ok os ws item.path t target root r w).0 in
    let at =
      stored-bytes root target blob t u (links.0 t root (components item.path) target real)
        stored in
    let kept : (a : AbsPath) → KeptAt a t u = λ a.
      subst (λ x. KeptAt a t x.1) stored
        (store-KeptAt a root target t (λ _. write_bytes target blob)
          (λ v. write_bytes-KeptAt a target blob v)) in
    rw
      (
        download,
        still-resolves os ws item.path t u target root links kept r w free,
        is_file,
        read_bytes,
        stat,
        at,
      )
      refl
