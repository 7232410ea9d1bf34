-- ===== src/Services/Files/Kept.antt =====
-- What a write of src/forge/services/files_service.py leaves: directories and links.
use xforgebox.Base.{
  true, Option, none, some, [], ==_eq, nat_eq, list_eq, ◌≡◌, refl, ◌∙◌, arith, Bool-cases, ◌⊎◌, inl,
  inr, Option-cases,
}
use xforgebox.Models.{Text}
use xforgebox.Strings.Utf8.{Bytes, encode, encodable}
use xforgebox.Services.World.{Over, ◌▷◌, next-keeps}
use xforgebox.Services.Files.Paths.{AbsPath, relative_to}
use xforgebox.Services.Files.Host.{
  Node, file, dir, link, Tree, put, stat, is_dir, make_parents, write_bytes,
}
use xforgebox.Services.Files.Host.Safe.{IsPlain, node-cases, MadeAt, make_parents-MadeAt}
use xforgebox.Services.Files.Ops.{make_parents_in, write_text}

abbrev pub link_of : Option Node → Option AbsPath
link_of none = none
link_of (some (file b)) = none
link_of (some dir) = none
link_of (some (link q)) = some q

-- A directory stays one, and links stay as they are.
abbrev pub KeptAt : AbsPath → Tree → Tree → Type 0
KeptAt a t u = (t a ≡ some dir → u a ≡ some dir) × (link_of (t a) ≡ link_of (u a))

kept-put :
    (a p : AbsPath) (b : Bytes) (t : Tree)
    → (t p ≡ none) ⊎ ((old : Bytes) × (t p ≡ some (file old)))
    → KeptAt a t (put p (some (file b)) t)
kept-put a p b t (inl h) = ground (arith, ==_eq a p, h)
kept-put a p b t (inr (old, h)) = ground (arith, ==_eq a p, h)

pub write_bytes-KeptAt : (a p : AbsPath) (b : Bytes) (t : Tree) → KeptAt a t (write_bytes p b t).1
unfolding write_bytes
write_bytes-KeptAt a p b t = elim (node-cases (t p)) [
  | inl h ↦ rw (write_bytes, h) (kept-put a p b t (inl h))
  | inr (inl (old, h)) ↦ rw (write_bytes, h) (kept-put a p b t (inr (old, h)))
  | inr (inr (inl h)) ↦ rw (write_bytes, h) (λ k. k, refl)
  | inr (inr (inr (q, h))) ↦ elim (node-cases (t q)) [
    | inl k ↦ rw (write_bytes, h, k) (kept-put a q b t (inl k))
    | inr (inl (old, k)) ↦ rw (write_bytes, h, k) (kept-put a q b t (inr (old, k)))
    | inr (inr (inl k)) ↦ rw (write_bytes, h, k) (λ j. j, refl)
    | inr (inr (inr (r, k))) ↦ rw (write_bytes, h, k) (λ j. j, refl)
  ]
]

made-KeptAt : (a : AbsPath) (t u : Tree) → MadeAt a t u → KeptAt a t u
made-KeptAt a t u (inl same) = rw same (λ k. k, refl)
made-KeptAt a t u (inr (h, k)) = ground (arith, h, k)

kept_trans : (a : AbsPath) (t u v : Tree) → KeptAt a t u → KeptAt a u v → KeptAt a t v
kept_trans a t u v k l = (λ h. l.0 (k.0 h), k.1 ∙ l.1)

-- A directory that is no link is one afterwards.
pub kept-is_dir :
    (p : AbsPath) (t u : Tree)
    → ((a : AbsPath) → KeptAt a t u)
    → IsPlain (t p)
    → is_dir t p ≡ true
    → is_dir u p ≡ true
unfolding stat
kept-is_dir p t u kept plain h = elim (node-cases (t p)) [
  | inl k ↦ ground (arith, k)
  | inr (inl (b, k)) ↦ ground (arith, k)
  | inr (inr (inl k)) ↦ rw (is_dir, stat, (kept p).0 k) refl
  | inr (inr (inr (q, k))) ↦ absurd (plain q k)
]

-- The same of a text that is stored with its parents.
pub store-KeptAt :
    {A : Type 0} (a root target : AbsPath) (t : Tree) (k : Unit {0} → Over Tree A)
    → ((u : Tree) → KeptAt a u (k tt u).1)
    → KeptAt a t ((make_parents_in root target ▷ k) t).1
unfolding make_parents_in
store-KeptAt a root target t k kept = elim (Option-cases (relative_to root target)) [
  | inl h ↦ rw (make_parents_in, h) (kept t)
  | inr (rel, h) ↦
      let made = made-KeptAt a t (make_parents root rel t).1 (make_parents-MadeAt a root rel t) in
      rw (make_parents_in, h)
        (next-keeps (λ u. KeptAt a t u) (make_parents root rel t) k made
          λ _.
            kept_trans a t (make_parents root rel t).1 (k tt (make_parents root rel t).1).1 made
              (kept (make_parents root rel t).1))
]

pub write_text-KeptAt :
    (a p : AbsPath) (text : Text) (t : Tree) → KeptAt a t (write_text p text t).1
unfolding write_text
write_text-KeptAt a p text t = elim (Bool-cases (encodable text)) [
  | inl has ↦ rw (write_text, has) (write_bytes-KeptAt a p (encode text) t)
  | inr has_not ↦
      rw (write_text, has_not)
        (next-keeps (λ u. KeptAt a t u) (write_bytes p [] t) _ (write_bytes-KeptAt a p [] t)
          (λ _. write_bytes-KeptAt a p [] t))
]
