-- ===== src/Services/Files/Confined.antt =====
-- Where the changes of `FilesService` stay.
use xforgebox.Base.{
  ℕ, String, Bool, false, not, some, List, [], ◌∷◌, ◌==◌, nat_eq, list_eq, ◌≡◌, refl, sym, ◌∙◌,
  subst, arith, Bool-cases, Option-cases, inl, inr, if_cases,
}
use xforgebox.Errors.{Result, ok, bind-ok}
use xforgebox.Models.{Text}
use xforgebox.Services.World.{Over, returns, ◌▷◌, next-keeps}
use xforgebox.Services.Files.Paths.{AbsPath, relative_to, relative_to-append, is_reserved}
use xforgebox.Services.Files.Host.{Tree, Os, exists, is_file, write_bytes}
use xforgebox.Services.Files.Host.Safe.{IsFree, IsSafe, store-watch, safe-last, write_bytes-watch}
use xforgebox.Services.Files.Ops.{
  reads, workspace_root, ensure_within, resolve, resolve_for_read, in_reserved, make_parents_in,
  write_text, write, edit, edited, read_text, remove, delete, UploadItem, upload, upload_files,
}
use xforgebox.Services.Files.Ops as Files
use xforgebox.Services.Files.Resolved.{
  IsResolving, IsOutside, reads-keeps, resolve-ok, way-IsSafe, write_text-watch, not_reserved-ok,
}

-- A call that changes files.
pub data Change : Type 0 where
  writes : Text → Text → Change
  edits : Text → Text → Text → Bool → Change
  deletes : Text → Change
  uploads : List UploadItem → Change

-- The disk after a call, whatever it returns or raises.
unfoldable pub change : Os → String → Change → Tree → Tree
unfolding Files.write Files.edit Files.delete Files.upload_files
change os ws (writes path content) t = (Files.write os ws path content t).1
change os ws (edits path old new all) t = (Files.edit os ws path old new all t).1
change os ws (deletes path) t = (Files.delete os ws path t).1
change os ws (uploads items) t = (Files.upload_files os ws items t).1

unfoldable pub changes : Os → String → List Change → Tree → Tree
unfolding change
changes os ws [] t = t
changes os ws (c ∷ cs) t = changes os ws cs (change os ws c t)

module _ (os : Os) (ws : String) (q : AbsPath) (resolving : IsResolving os)
    (outside : IsOutside os ws q) where
  target-IsFree :
      (path : Text) (t : Tree) (target root : AbsPath)
      → resolve os ws path t ≡ ok target
      → workspace_root os ws t ≡ ok root
      → in_reserved root target ≡ false
      → (rel : AbsPath) × (relative_to root target ≡ some rel)
        × IsSafe q t root rel
        × IsFree q t target
  unfolding in_reserved
  target-IsFree path t target root h w free =
      let (rel, split) = (resolve-ok os ws path t target root h w).1 in
      let not_reserved : is_reserved rel ≡ false = ground (arith, split) in
      let safe =
        way-IsSafe os ws path t q target root rel resolving outside h w split not_reserved in
      (
        rel,
        split,
        safe,
        rw (relative_to-append root target rel split) (safe-last q t root rel safe),
      )

  -- What a call stores at the path that it has resolved, and has found not to be reserved.
  stored-watch :
      {A : Type 0} (path : Text) (t : Tree) (target root : AbsPath) (k : Unit {0} → Over Tree A)
      → resolve os ws path t ≡ ok target
      → workspace_root os ws t ≡ ok root
      → in_reserved root target ≡ false
      → ((u : Tree) → IsFree q u target → (k tt u).1 q ≡ u q)
      → ((make_parents_in root target ▷ k) t).1 q ≡ t q
  unfolding make_parents_in
  stored-watch path t target root k h w free watch =
      let (rel, split, safe, _) = target-IsFree path t target root h w free in
      let at = relative_to-append root target rel split in
      rw (make_parents_in, split)
        (store-watch q root rel t k safe
          λ u here. watch u (subst (λ x. IsFree q u x) (sym at) here))

  write-watch : (path content : Text) (t : Tree) → (write os ws path content t).1 q ≡ t q
  unfolding write
  write-watch path content t =
      reads-keeps (λ u. u q ≡ t q) (resolve os ws path) t _ refl
        λ target h.
          reads-keeps (λ u. u q ≡ t q) (workspace_root os ws) t _ refl
            λ root w. elim (Bool-cases (in_reserved root target)) [
              | inl taken ↦ rw taken refl
              | inr free ↦ rw free (
                  stored-watch path t target root (λ _. write_text target content) h w free
                    (write_text-watch q target content))
            ]

  -- A path that may be read is one that resolves, and is not reserved.
  readable-IsFree :
      (path : Text) (t : Tree) (target : AbsPath)
      → resolve_for_read os ws path t ≡ ok target
      → IsFree q t target
  unfolding resolve_for_read
  readable-IsFree path t target h =
      let (resolved, r, h1) = bind-ok (resolve os ws path t) _ target h in
      let (root, w, h2) = bind-ok (workspace_root os ws t) _ target h1 in
      let (free, same) = not_reserved-ok root resolved target h2 in
      subst (λ x. IsFree q t x) same (target-IsFree path t resolved root r w free).3

  edit-watch :
      (path old new : Text) (all : Bool) (t : Tree) → (edit os ws path old new all t).1 q ≡ t q
  unfolding edit
  edit-watch path old new all t =
      reads-keeps (λ u. u q ≡ t q) (resolve_for_read os ws path) t _ refl
        λ target h.
          if_cases (λ (out : Result ℕ × Tree). out.1 q ≡ t q) (not (is_file t target)) (λ _. refl)
            λ _.
              reads-keeps (λ u. u q ≡ t q) (read_text target) t _ refl
                λ text _.
                  reads-keeps (λ u. u q ≡ t q) (λ _. edited old new all text) t _ refl
                    λ out _.
                      let stays =
                        write_text-watch q target out.0 t (readable-IsFree path t target h) in
                      next-keeps (λ u. u q ≡ t q) (write_text target out.0 t) (λ _. returns out.1)
                        stays (λ _. stays)

  remove-watch : (target : AbsPath) (t : Tree) → IsFree q t target → (remove os target t).1 q ≡ t q
  unfolding remove
  remove-watch target t free = ground (arith, free.0)

  delete-watch : (path : Text) (t : Tree) → (delete os ws path t).1 q ≡ t q
  unfolding delete
  delete-watch path t =
      reads-keeps (λ u. u q ≡ t q) (resolve os ws path) t _ refl
        λ target h.
          reads-keeps (λ u. u q ≡ t q) (workspace_root os ws) t _ refl
            λ root w.
              if_cases (λ (out : Result (Unit {0}) × Tree). out.1 q ≡ t q) (target == root)
                (λ _. refl)
                λ _.
                  if_cases (λ (out : Result (Unit {0}) × Tree). out.1 q ≡ t q)
                    (in_reserved root target) (λ _. refl)
                    λ free.
                      if_cases (λ (out : Result (Unit {0}) × Tree). out.1 q ≡ t q) (exists t target)
                        (λ _. remove-watch target t (target-IsFree path t target root h w free).3)
                        (λ _. refl)

  upload-watch : (item : UploadItem) (t : Tree) → (upload os ws item t).1 q ≡ t q
  unfolding upload
  upload-watch item t =
      reads-keeps (λ u. u q ≡ t q) (resolve os ws item.path) t _ refl
        λ target h.
          reads-keeps (λ u. u q ≡ t q) (workspace_root os ws) t _ refl
            λ root w.
              if_cases (λ (m : Over Tree Text). (m t).1 q ≡ t q) (in_reserved root target)
                (λ _. refl)
                λ free. elim (Option-cases (os.b64decode item.content_b64)) [
                  | inl refused ↦ rw refused refl
                  | inr (blob, decoded) ↦ rw decoded (
                      stored-watch item.path t target root _ h w free λ u here.
                        let stays = write_bytes-watch q target blob u here in
                        next-keeps (λ v. v q ≡ u q) (write_bytes target blob u) _ stays
                          (λ _. stays))
                ]

  upload_files-watch : (items : List UploadItem) (t : Tree) → (upload_files os ws items t).1 q ≡ t q
  unfolding upload_files
  upload_files-watch [] t = refl
  upload_files-watch (item ∷ items) t =
      next-keeps (λ u. u q ≡ t q) (upload os ws item t) _ (upload-watch item t)
        λ p.
          let u : Tree = (upload os ws item t).1 in
          let stays = upload_files-watch items u ∙ upload-watch item t in
          next-keeps (λ v. v q ≡ t q) (upload_files os ws items u) _ stays (λ _. stays)

  change-watch : (c : Change) (t : Tree) → change os ws c t q ≡ t q
  unfolding change
  change-watch (writes path content) t = write-watch path content t
  change-watch (edits path old new all) t = edit-watch path old new all t
  change-watch (deletes path) t = delete-watch path t
  change-watch (uploads items) t = upload_files-watch items t

-- On a host where `Path.resolve` leaves no link on a path, calls that write, edit, delete and upload
-- files of a workspace in any number and order, whether they succeed or raise, leave everything as
-- it was at each path that is not in the workspace, or is in its reserved directory.
pub files_confined :
    (os : Os) (ws : String) (q : AbsPath)
    → IsResolving os
    → IsOutside os ws q
    → (cs : List Change) (t : Tree) → changes os ws cs t q ≡ t q
unfolding changes
files_confined os ws q resolving outside [] t = refl
files_confined os ws q resolving outside (c ∷ cs) t =
    files_confined os ws q resolving outside cs (change os ws c t)
    ∙ change-watch os ws q resolving outside c t
