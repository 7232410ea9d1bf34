-- ===== src/Services/Files/WriteRead.antt =====
-- `write` and then `read` of src/forge/services/files_service.py.
use xforgebox.Base.{
  ℕ, String, Bool, true, false, Option, none, some, List, [], ◌∷◌, if◌then◌else◌, ==_refl, nat_eq,
  list_eq, ◌≡◌, ◌≢◌, ◌≤◌, refl, sym, ap, ◌∙◌, subst, arith, Bool-cases, inl, inr, Option-cases, ltb,
  length, contains,
}
use xforgebox.Errors.{
  Result, ok, err, bind-ok, Exception, err-ne-ok, os_error, value_error, workspace_error,
  path_escape_error,
}
use xforgebox.Models.{Text, ℤ, pos}
use xforgebox.Strings.Lines.{split_lines, join-split_lines}
use xforgebox.Strings.Utf8.{Bytes, encode, encodable, decode}
use xforgebox.Strings.Utf8.Decode.{decode-encode}
use xforgebox.Services.World.{Over, raises, next, ◌▷◌, next-ok}
use xforgebox.Services.Files.Paths.{
  AbsPath, codes, is_absolute, components, relative_to, is_reserved,
}
use xforgebox.Services.Files.Host.{
  file, Tree, Os, stat, is_dir, exists, read_bytes, make_parents, write_bytes,
}
use xforgebox.Services.Files.Host.Safe.{IsPlain, node-cases, made-stays, make_parents-MadeAt}
use xforgebox.Services.Files.Ops.{
  reads, workspace_root, resolve, resolve_for_read, in_reserved, make_parents_in, write_text, write,
  page, read,
}
use xforgebox.Storage.WorkspaceStore.{valid_workspace_id}
use xforgebox.Services.Files.Resolved.{resolve-ok}
use xforgebox.Services.Files.Kept.{KeptAt, write_text-KeptAt, link_of, store-KeptAt, kept-is_dir}

-- `Path.resolve` returns paths without links, and looks at nothing but links.
abbrev pub IsLinkReader : Os → Type 0
IsLinkReader os =
    ((t : Tree) (root : AbsPath) (names : List Text) (target : AbsPath)
      → os.realpath t root names ≡ ok target
      → IsPlain (t target))
    × ((t u : Tree)
        → ((a : AbsPath) → link_of (t a) ≡ link_of (u a))
        → (root : AbsPath) (names : List Text)
        → os.realpath t root names ≡ os.realpath u root names)

pub reads-ok :
    {A B : Type 0} (call : Tree → Result A) (t u : Tree) (k : A → Over Tree B) (b : B)
    → (reads call ▷ k) t ≡ (ok b, u)
    → (a : A) × (call t ≡ ok a) × (k a t ≡ (ok b, u))
reads-ok {A} call t u k b h = go (call t) h
  where
    go : (r : Result A) → next (r, t) k ≡ (ok b, u) → (a : A) × (r ≡ ok a) × (k a t ≡ (ok b, u))
    go (ok a) h1 = (a, refl, h1)
    go (err e) h1 = absurd (err-ne-ok e b (ap (λ x. x.0) h1))

pub unless-ok :
    {A : Type 0} (taken : Bool) (e : Exception) (m : Over Tree A) (t u : Tree) (a : A)
    → (if taken then raises e else m) t ≡ (ok a, u)
    → (taken ≡ false) × (m t ≡ (ok a, u))
unless-ok true e m t u a h = absurd (err-ne-ok e a (ap (λ x. x.0) h))
unless-ok false e m t u a h = (refl, h)

-- A write that has returned: what it resolved, and what it stored.
write-ok :
    (os : Os) (ws : String) (path content : Text) (t u : Tree)
    → write os ws path content t ≡ (ok tt, u)
    → (target : AbsPath) × (root : AbsPath) × (resolve os ws path t ≡ ok target)
      × (workspace_root os ws t ≡ ok root)
      × (in_reserved root target ≡ false)
      × ((make_parents_in root target ▷ λ _. write_text target content) t ≡ (ok tt, u))
unfolding write
write-ok os ws path content t u h =
    let (target, r, h1) = reads-ok (resolve os ws path) t u _ tt h in
    let (root, w, h2) = reads-ok (workspace_root os ws) t u _ tt h1 in
    let (free, stored) = unless-ok (in_reserved root target) _ _ t u tt h2 in
    (target, root, r, w, free, stored)

pub made-IsPlain :
    (root target : AbsPath) (t : Tree)
    → IsPlain (t target)
    → IsPlain ((make_parents_in root target t).1 target)
unfolding make_parents_in
made-IsPlain root target t plain r = elim (Option-cases (relative_to root target)) [
  | inl h ↦ rw (make_parents_in, h) (plain r)
  | inr (rel, h) ↦
      rw (make_parents_in, h)
        (made-stays target t (make_parents root rel t).1 (make_parents-MadeAt target root rel t)
          plain r)
]

raises-ne-ok :
    {A B : Type 0} (out : Result A × Tree) (e : Exception) (b : B)
    → (next out (λ _. raises e)).0 ≢ ok b
raises-ne-ok (ok a, t) e b h = err-ne-ok e b h
raises-ne-ok (err d, t) e b h = err-ne-ok d b h

pub written-file :
    (p : AbsPath) (b : Bytes) (t u : Tree)
    → IsPlain (t p)
    → write_bytes p b t ≡ (ok tt, u)
    → u p ≡ some (file b)
unfolding write_bytes
written-file p b t u plain h = elim (node-cases (t p)) [
  | inl k ↦ sym (ap (λ x. x.1 p) (rw (write_bytes, k) at h)) ∙ rw (==_refl p) refl
  | inr (inl (old, k)) ↦ sym (ap (λ x. x.1 p) (rw (write_bytes, k) at h)) ∙ rw (==_refl p) refl
  | inr (inr (inl k)) ↦ absurd (err-ne-ok os_error tt (ap (λ x. x.0) (rw (write_bytes, k) at h)))
  | inr (inr (inr (r, k))) ↦ absurd (plain r k)
]

-- A text that has been stored stands in its file, if no link does.
stored-file :
    (root target : AbsPath) (content : Text) (t u : Tree)
    → IsPlain (t target)
    → (make_parents_in root target ▷ λ _. write_text target content) t ≡ (ok tt, u)
    → (encodable content ≡ true) × (u target ≡ some (file (encode content)))
unfolding write_text
stored-file root target content t u plain h =
    let (_, w, made, same) =
      next-ok (make_parents_in root target t) (λ _. write_text target content) tt
        (ap (λ x. x.0) h) in
    let stored : write_text target content w ≡ (ok tt, u) = sym same ∙ h in
    let still : IsPlain (w target) =
      subst (λ x. IsPlain (x.1 target)) made (made-IsPlain root target t plain) in
    elim (Bool-cases (encodable content)) [
      | inl has ↦
          (has, written-file target (encode content) w u still (rw (write_text, has) at stored))
      | inr has_not ↦ absurd (
          raises-ne-ok (write_bytes target [] w) value_error tt
            (ap (λ x. x.0) (rw (write_text, has_not) at stored)))
    ]

-- What has been read of a file without zero bytes that is not too large.
read-file :
    (os : Os) (ws : String) (path : Text) (u : Tree) (target : AbsPath) (raw : Bytes) (offset : ℤ)
    (limit : Option ℕ) (max : ℕ)
    → resolve_for_read os ws path u ≡ ok target
    → u target ≡ some (file raw)
    → length raw ≤ max
    → contains raw 0 ≡ false
    → read os ws path offset limit max u ≡ page offset limit (split_lines (decode raw))
unfolding read stat
read-file os ws path u target raw offset limit max r f small clean =
    let fits : ltb max (length raw) ≡ false = ground arith in
    rw (read, r, exists, is_dir, read_bytes, stat, f, fits, clean) refl

dir-ok :
    (b : Bool) (r root : AbsPath)
    → (if b then ok r else err workspace_error) ≡ ok root
    → (b ≡ true) × (r ≡ root)
dir-ok b r root h = (ground arith, ground arith)

-- The workspace is where it was.
root-stays :
    (os : Os) (ws : String) (t u : Tree) (root : AbsPath)
    → IsLinkReader os
    → ((a : AbsPath) → KeptAt a t u)
    → workspace_root os ws t ≡ ok root
    → workspace_root os ws u ≡ ok root
unfolding workspace_root
root-stays os ws t u root links kept w = elim (Bool-cases (valid_workspace_id ws)) [
  | inr bad ↦ absurd (err-ne-ok _ root (rw (workspace_root, bad) at w))
  | inl good ↦
      let (r, real, found) =
        bind-ok (os.realpath t os.workspaces (codes ws ∷ [])) _ root
          (rw (workspace_root, good) at w) in
      let (is_directory, same) = dir-ok (is_dir t r) r root found in
      let still = kept-is_dir r t u kept (links.0 t _ _ r real) is_directory in
      rw
        (
          workspace_root,
          good,
          sym (links.1 t u (λ a. (kept a).1) os.workspaces (codes ws ∷ [])) ∙ real,
          still,
        )
        (ap ok same)
]

readable :
    (root target rel : AbsPath)
    → relative_to root target ≡ some rel
    → is_reserved rel ≡ false
    → (elim (relative_to root target) [
      | none ↦ err path_escape_error
      | some r ↦ if is_reserved r then err path_escape_error else ok target
    ])
      ≡ ok target
readable root target rel split free = rw (split, free) refl

-- A path that resolves before a write does so afterwards, to the same one.
pub still-resolves :
    (os : Os) (ws : String) (path : Text) (t u : Tree) (target root : AbsPath)
    → IsLinkReader os
    → ((a : AbsPath) → KeptAt a t u)
    → resolve os ws path t ≡ ok target
    → workspace_root os ws t ≡ ok root
    → in_reserved root target ≡ false
    → resolve_for_read os ws path u ≡ ok target
unfolding resolve resolve_for_read in_reserved
still-resolves os ws path t u target root links kept r w free =
    let root_u = root-stays os ws t u root links kept w in
    let same = links.1 t u (λ a. (kept a).1) root (components path) in
    let (rel, split) = (resolve-ok os ws path t target root r w).1 in
    let not_reserved : is_reserved rel ≡ false = ground (arith, split) in
    let again : resolve os ws path u ≡ ok target = elim (Bool-cases (is_absolute path)) [
      | inl absolute ↦ absurd (err-ne-ok _ target (rw (resolve, absolute) at r))
      | inr relative ↦ rw (resolve, relative, root_u, sym same) (rw (resolve, relative, w) at r)
    ] in
    rw (resolve_for_read, again, root_u) (readable root target rel split not_reserved)

-- A text that has been written in one call, without zero bytes and within the limit of a read, is
-- read back as it was, with the number of its lines, and not as truncated. `Path.resolve` is to
-- look at links only, and to leave none on a path.
pub read-write :
    (os : Os) (ws : String) (path content : Text) (max : ℕ) (t u : Tree)
    → IsLinkReader os
    → write os ws path content t ≡ (ok tt, u)
    → length (encode content) ≤ max
    → contains (encode content) 0 ≡ false
    → read os ws path (pos 0) none max u ≡ ok (content, length (split_lines content), false)
unfolding page
read-write os ws path content max t u links h small clean =
    let (target, root, r, w, free, stored) = write-ok os ws path content t u h in
    let real = (resolve-ok os ws path t target root r w).0 in
    let (has, at) =
      stored-file root target content t u (links.0 t root (components path) target real) stored in
    let kept : (a : AbsPath) → KeptAt a t u = λ a.
      subst (λ x. KeptAt a t x.1) stored
        (store-KeptAt a root target t (λ _. write_text target content)
          (λ v. write_text-KeptAt a target content v)) in
    read-file os ws path u target (encode content) (pos 0) none max
      (still-resolves os ws path t u target root links kept r w free) at small clean
    ∙ rw (page, decode-encode content has, join-split_lines content) refl
