-- ===== src/Base/Counting.antt =====
-- How often a value stands in a list, and Python's `set` operations on lists of values.
use Prim.Native.Nat.{ℕ, ◌+◌, ◌≤◌}
use mathlib.Core.Path.{◌≡◌, refl}
use mathlib.Core.List.{List, [], ◌∷◌, ◌++◌}
use mathlib.Core.Bool.{true, false}
use native.Mathlib.Omega.{arith}
use xforgebox.Base.Equality.{==_refl, Eq, ◌==◌, contains, if◌then◌else◌}
use xforgebox.Base.Lists.{length}

module _ {ℓ} {A : Type ℓ} ⦃e : Eq A⦄ where
  -- 1 where the two are equal, and 0 elsewhere.
  abbrev pub hit : A → A → ℕ
  hit a b = if a == b then 1 else 0

  unfoldable pub count : A → List A → ℕ
  count a [] = 0
  count a (x ∷ xs) = hit a x + count a xs

  -- `s.add(a)`
  unfoldable pub add : A → List A → List A
  add a s = if contains s a then s else a ∷ s

  -- `s.discard(a)`
  unfoldable pub discard : A → List A → List A
  discard a [] = []
  discard a (x ∷ s) = if a == x then discard a s else x ∷ discard a s

  pub count-nil : (a : A) → count a [] ≡ 0
  unfolding count
  count-nil a = refl

  pub count-cons : (a x : A) (xs : List A) → count a (x ∷ xs) ≡ hit a x + count a xs
  unfolding count
  count-cons a x xs = refl

  pub count-append : (a : A) (xs ys : List A) → count a (xs ++ ys) ≡ count a xs + count a ys
  unfolding count
  count-append a [] ys = omega arith
  count-append a (x ∷ xs) ys = omega (arith, count-append a xs ys)

  pub not-contains : (a : A) (xs : List A) → count a xs ≡ 0 → contains xs a ≡ false
  unfolding count
  not-contains a [] h = refl
  not-contains a (x ∷ xs) h = ground (arith, not-contains a xs)

  pub contains-count : (a : A) (xs : List A) → contains xs a ≡ true → 1 ≤ count a xs
  unfolding count
  contains-count a [] h = ground arith
  contains-count a (x ∷ xs) h = ground (arith, contains-count a xs)

  pub count-add : (a b : A) (s : List A) → count a s ≡ 0 → count b (add a s) ≡ hit b a + count b s
  unfolding count add
  count-add a b s h = ground (arith, not-contains a s)

  pub length-add : (a : A) (s : List A) → count a s ≡ 0 → length (add a s) ≡ length s + 1
  unfolding add
  length-add a s h = ground (arith, not-contains a s)

  pub count-discard :
      (a b : A) (s : List A) → count b (discard a s) ≡ (if b == a then 0 else count b s)
  unfolding count discard
  count-discard a b [] = ground arith
  count-discard a b (x ∷ s) = ground (arith, count-discard a b s)

  pub length-discard : (a : A) (s : List A) → length (discard a s) + count a s ≡ length s
  unfolding count discard
  length-discard a [] = omega arith
  length-discard a (x ∷ s) = ground (arith, length-discard a s)

  pub contains-add : (a : A) (s : List A) → contains (add a s) a ≡ true
  unfolding add
  contains-add a s = ground (arith, ==_refl a)
