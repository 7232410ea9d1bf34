-- ===== src/Services/Files/Resolved.antt =====
-- Paths that `_resolve` of src/forge/services/files_service.py has let pass.
use xforgebox.Base.{
  String, Bool, true, false, not, none, some, List, [], ◌∷◌, ◌++◌, append_assoc, if◌then◌else◌,
  ◌==◌, ==_eq, nat_eq, list_eq, ◌≡◌, refl, sym, ap, ◌∙◌, arith, Bool-cases, Option-cases, inl, inr,
}
use xforgebox.Errors.{Result, ok, err, path_escape_error, value_error}
use xforgebox.Models.{Text}
use xforgebox.Strings.Utf8.{encode, encodable}
use xforgebox.Services.World.{Over, raises, next, ◌▷◌, next-keeps}
use xforgebox.Services.Files.Paths.{
  AbsPath, components, relative_to, relative_to-append, relative_to-prefix, is_reserved,
}
use xforgebox.Services.Files.Host.{Tree, Os, write_bytes}
use xforgebox.Services.Files.Host.Safe.{IsPlain, IsFree, IsSafe, all-IsSafe, write_bytes-watch}
use xforgebox.Services.Files.Ops.{
  reads, workspace_root, ensure_within, resolve, in_reserved, write_text,
}

-- `Path.resolve` returns paths on which no link is left.
abbrev pub IsResolving : Os → Type 0
IsResolving os =
    (t : Tree) (root : AbsPath) (names : List Text) (target : AbsPath)
    → os.realpath t root names ≡ ok target
    → (a b : AbsPath) → target ≡ a ++ b
    → IsPlain (t a)

-- Is a path in a workspace, and not in its reserved directory?
unfoldable pub in_workspace : AbsPath → AbsPath → Bool
unfolding relative_to is_reserved
in_workspace root q = elim (relative_to root q) [ none ↦ false | some rel ↦ not (is_reserved rel) ]

-- A path that lies in no directory that the workspace's id leads to.
abbrev pub IsOutside : Os → String → AbsPath → Type 0
IsOutside os ws q =
    (t : Tree) (root : AbsPath) → workspace_root os ws t ≡ ok root → in_workspace root q ≡ false

-- Steps that only read leave the disk, and what they return is what they read.
pub reads-keeps :
    {A B : Type 0} (P : Tree → Type 0) (call : Tree → Result A) (t : Tree) (k : A → Over Tree B)
    → P t
    → ((a : A) → call t ≡ ok a → P (k a t).1)
    → P ((reads call ▷ k) t).1
reads-keeps {A} P call t k h g = go (call t) g
  where
    go : (r : Result A) → ((a : A) → r ≡ ok a → P (k a t).1) → P (next (r, t) k).1
    go (ok a) g = g a refl
    go (err e) g = h

reserved-prefix : (a b : AbsPath) → is_reserved (a ++ b) ≡ false → is_reserved a ≡ false
unfolding is_reserved
reserved-prefix [] b h = refl
reserved-prefix (c ∷ a) b h = h

pub resolve-ok :
    (os : Os) (ws : String) (path : Text) (t : Tree) (target root : AbsPath)
    → resolve os ws path t ≡ ok target
    → workspace_root os ws t ≡ ok root
    → (os.realpath t root (components path) ≡ ok target)
      × ((rel : AbsPath) × (relative_to root target ≡ some rel))
unfolding resolve ensure_within
resolve-ok os ws path t target root h w = (
  ground arith,
  elim (Option-cases (relative_to root target)) [
    | inl none_left ↦ ground arith
    | inr found ↦ found
  ],
)

apart :
    (q root a : AbsPath)
    → in_workspace root q ≡ false
    → is_reserved a ≡ false
    → (q == root ++ a) ≡ false
unfolding in_workspace
apart q root a out free = elim (Bool-cases (q == root ++ a)) [
  | inl same ↦
      let there : in_workspace root (root ++ a) ≡ true =
        rw (in_workspace, relative_to-prefix root a, free) refl in
      ground (arith, sym (ap (in_workspace root) (==_eq q (root ++ a) same)) ∙ out)
  | inr other ↦ other
]

pub way-IsSafe :
    (os : Os) (ws : String) (path : Text) (t : Tree) (q target root rel : AbsPath)
    → IsResolving os
    → IsOutside os ws q
    → resolve os ws path t ≡ ok target
    → workspace_root os ws t ≡ ok root
    → relative_to root target ≡ some rel
    → is_reserved rel ≡ false
    → IsSafe q t root rel
unfolding in_workspace
way-IsSafe os ws path t q target root rel plain outside h w k r =
    all-IsSafe q t root rel λ a b split. (
      apart q root a (outside t root w) (reserved-prefix a b (ap is_reserved (sym split) ∙ r)),
      plain t root (components path) target (resolve-ok os ws path t target root h w).0 (root ++ a)
          b
          (relative_to-append root target rel k
            ∙ ap (λ x. root ++ x) split
            ∙ sym (append_assoc root a b)),
    )

pub write_text-watch :
    (q p : AbsPath) (text : Text) (t : Tree) → IsFree q t p → (write_text p text t).1 q ≡ t q
unfolding write_text
write_text-watch q p text t free = elim (Bool-cases (encodable text)) [
  | inl has ↦ rw (write_text, has) (write_bytes-watch q p (encode text) t free)
  | inr has_not ↦
      rw (write_text, has_not)
        (next-keeps (λ u. u q ≡ t q) (write_bytes p [] t) (λ _. raises value_error)
          (write_bytes-watch q p [] t free) (λ _. write_bytes-watch q p [] t free))
]

pub not_reserved-ok :
    (root resolved target : AbsPath)
    → (elim (relative_to root resolved) [
      | none ↦ err path_escape_error
      | some rel ↦ if is_reserved rel then err path_escape_error else ok resolved
    ])
      ≡ ok target
    → (in_reserved root resolved ≡ false) × (resolved ≡ target)
unfolding in_reserved
not_reserved-ok root resolved target h = (ground arith, ground arith)
