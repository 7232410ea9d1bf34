-- ===== src/Services/Files/Host/Safe.antt =====
-- What the writes of src/forge/services/files_service.py leave alone: the paths that are not on a
-- way without links.
use xforgebox.Base.{
  false, Option, none, some, List, [], ◌∷◌, ◌++◌, ◌==◌, nat_eq, list_eq, ◌≡◌, ◌≢◌, refl, arith,
  Bool-cases, ◌⊎◌, inl, inr, ==_eq, append-nil, append_assoc, sym, ◌∙◌, ap,
}
use xforgebox.Strings.Utf8.{Bytes}
use xforgebox.Services.World.{Over, next, next-keeps}
use xforgebox.Services.Files.Paths.{AbsPath}
use xforgebox.Models.{Text}
use xforgebox.Services.Files.Host.{
  Node, file, dir, link, Tree, put, is_dir, make_parents, write_bytes,
}

-- No link stands there.
abbrev pub IsPlain : Option Node → Type 0
IsPlain n = (r : AbsPath) → n ≢ some (link r)

-- A path to watch is not `p`, and `p` is no link.
abbrev pub IsFree : AbsPath → Tree → AbsPath → Type 0
IsFree q t p = ((q == p) ≡ false) × IsPlain (t p)

-- The same of `base` and of each path on the way from it along the names.
unfoldable pub IsSafe : AbsPath → Tree → AbsPath → List Text → Type 0
unfolding list_eq nat_eq
IsSafe q t base [] = IsFree q t base
IsSafe q t base (c ∷ rest) = IsFree q t base × IsSafe q t (base ++ c ∷ []) rest

IsPlain-put :
    (p a : AbsPath) (n : Node) (t : Tree)
    → IsPlain (some n)
    → IsPlain (t a)
    → IsPlain (put p (some n) t a)
IsPlain-put p a n t h k r = ground (arith, h r, k r)

dir-IsPlain : IsPlain (some dir)
dir-IsPlain r h = ground arith

IsSafe-put :
    (q p : AbsPath) (n : Node) (t : Tree) (base : AbsPath) (rest : List Text)
    → IsPlain (some n)
    → IsSafe q t base rest
    → IsSafe q (put p (some n) t) base rest
unfolding IsSafe
IsSafe-put q p n t base [] h s = (s.0, IsPlain-put p base n t h s.1)
IsSafe-put q p n t base (c ∷ rest) h s =
    ((s.0.0, IsPlain-put p base n t h s.0.1), IsSafe-put q p n t (base ++ c ∷ []) rest h s.1)

pub node-cases :
    (o : Option Node)
    → (o ≡ none)
      ⊎ ((b : Bytes) × (o ≡ some (file b)))
      ⊎ (o ≡ some dir)
      ⊎ ((q : AbsPath) × (o ≡ some (link q)))
node-cases none = inl refl
node-cases (some (file b)) = inr (inl (b, refl))
node-cases (some dir) = inr (inr (inl refl))
node-cases (some (link q)) = inr (inr (inr (q, refl)))

-- A directory has been made at `a`, or nothing has changed there.
abbrev pub MadeAt : AbsPath → Tree → Tree → Type 0
MadeAt a t u = (u a ≡ t a) ⊎ ((t a ≡ none) × (u a ≡ some dir))

made-put :
    (a p : AbsPath) (t u : Tree) → t p ≡ none → MadeAt a (put p (some dir) t) u → MadeAt a t u
made-put a p t u h m = ground (arith, ==_eq a p)

pub make_parents-MadeAt :
    (a base : AbsPath) (rest : List Text) (t : Tree) → MadeAt a t (make_parents base rest t).1
unfolding make_parents
make_parents-MadeAt a base [] t = inl refl
make_parents-MadeAt a base (c ∷ []) t = inl refl
make_parents-MadeAt a base (c ∷ d ∷ rest) t =
    let p : AbsPath = base ++ c ∷ [] in
    elim (node-cases (t p)) [
      | inl h ↦
          rw (make_parents, h)
            (made-put a p t (make_parents p (d ∷ rest) (put p (some dir) t)).1 h
              (make_parents-MadeAt a p (d ∷ rest) (put p (some dir) t)))
      | inr (inl (b, h)) ↦ rw (make_parents, h) (inl refl)
      | inr (inr (inl h)) ↦ rw (make_parents, h) (make_parents-MadeAt a p (d ∷ rest) t)
      | inr (inr (inr (q, h))) ↦ elim (Bool-cases (is_dir t q)) [
        | inl there ↦ rw (make_parents, h, there) (make_parents-MadeAt a q (d ∷ rest) t)
        | inr not_there ↦ rw (make_parents, h, not_there) (inl refl)
      ]
    ]

pub make_parents-watch :
    (q base : AbsPath) (rest : List Text) (t : Tree)
    → IsSafe q t base rest
    → (make_parents base rest t).1 q ≡ t q
unfolding make_parents IsSafe
make_parents-watch q base [] t s = refl
make_parents-watch q base (c ∷ []) t s = refl
make_parents-watch q base (c ∷ d ∷ rest) t s =
    let p : AbsPath = base ++ c ∷ [] in
    elim (node-cases (t p)) [
      | inl h ↦
          rw
            (
              make_parents,
              h,
              make_parents-watch q p (d ∷ rest) (put p (some dir) t)
                  (IsSafe-put q p dir t p (d ∷ rest) dir-IsPlain s.1),
              s.1.0.0,
            )
            refl
      | inr (inl (b, h)) ↦ rw (make_parents, h) refl
      | inr (inr (inl h)) ↦ rw (make_parents, h) (make_parents-watch q p (d ∷ rest) t s.1)
      | inr (inr (inr (r, h))) ↦ absurd (s.1.0.1 r h)
    ]

pub safe-last :
    (q : AbsPath) (t : Tree) (base : AbsPath) (rest : List Text)
    → IsSafe q t base rest
    → IsFree q t (base ++ rest)
unfolding IsSafe
safe-last q t base [] s = rw (append-nil base) s
safe-last q t base (c ∷ rest) s =
    rw (sym (append_assoc base (c ∷ []) rest)) (safe-last q t (base ++ c ∷ []) rest s.1)

pub made-stays : (a : AbsPath) (t u : Tree) → MadeAt a t u → IsPlain (t a) → IsPlain (u a)
made-stays a t u m h r = ground (arith, h r)

pub write_bytes-watch :
    (q p : AbsPath) (b : Bytes) (t : Tree) → IsFree q t p → (write_bytes p b t).1 q ≡ t q
unfolding write_bytes
write_bytes-watch q p b t f = elim (node-cases (t p)) [
  | inl h ↦ rw (write_bytes, h, f.0) refl
  | inr (inl (old, h)) ↦ rw (write_bytes, h, f.0) refl
  | inr (inr (inl h)) ↦ rw (write_bytes, h) refl
  | inr (inr (inr (r, h))) ↦ absurd (f.1 r h)
]

-- A write that makes its parents first, where both leave what we watch alone.
pub store-watch :
    {A : Type 0} (q base : AbsPath) (rest : List Text) (t : Tree) (k : Unit {0} → Over Tree A)
    → IsSafe q t base rest
    → ((u : Tree) → IsFree q u (base ++ rest) → (k tt u).1 q ≡ u q)
    → (next (make_parents base rest t) k).1 q ≡ t q
store-watch q base rest t k s watch =
    let u : Tree = (make_parents base rest t).1 in
    let free = safe-last q t base rest s in
    let made = make_parents-MadeAt (base ++ rest) base rest t in
    next-keeps (λ v. v q ≡ t q) (make_parents base rest t) k (make_parents-watch q base rest t s)
      λ _.
        watch u (free.0, made-stays (base ++ rest) t u made free.1)
        ∙ make_parents-watch q base rest t s

-- The paths on a way of which each is one of `root ++ names` are safe where each of them is.
pub all-IsSafe :
    (q : AbsPath) (t : Tree) (base : AbsPath) (rest : List Text)
    → ((a b : AbsPath) → rest ≡ a ++ b → IsFree q t (base ++ a))
    → IsSafe q t base rest
unfolding IsSafe
all-IsSafe q t base [] free = rw (sym (append-nil base)) (free [] [] refl)
all-IsSafe q t base (c ∷ rest) free = (
  rw (sym (append-nil base)) (free [] (c ∷ rest) refl),
  all-IsSafe q t (base ++ c ∷ []) rest
      λ a b h. rw (append_assoc base (c ∷ []) a) (free (c ∷ a) b (ap (◌∷◌ c) h)),
)
