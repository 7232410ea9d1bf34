-- ===== src/Storage/Rows.antt =====
-- Rows of a table, and what the SQL statements of the metastore do with them.
use xforgebox.Base.{
  ℕ, ◌+◌, ◌≤◌, ◌<◌, ◌≡◌, refl, Bool, true, false, not, Option, none, some, List, [], ◌∷◌, ◌++◌,
  arith, ltb, if◌then◌else◌, keep_if,
}

module _ {ℓ} {A : Type ℓ} where
  -- The number of rows that a condition selects.
  unfoldable pub count_if : (A → Bool) → List A → ℕ
  count_if p [] = 0
  count_if p (r ∷ rs) = (if p r then 1 else 0) + count_if p rs

  -- `SELECT ... WHERE p` has a row.
  abbrev pub has : (A → Bool) → List A → Bool
  has p rs = ltb 0 (count_if p rs)

  -- `fetchone` of `SELECT ... WHERE p`.
  unfoldable pub first : (A → Bool) → List A → Option A
  first p [] = none
  first p (r ∷ rs) = if p r then some r else first p rs

  -- `UPDATE ... SET f WHERE p`
  unfoldable pub update : (A → Bool) → (A → A) → List A → List A
  update p f [] = []
  update p f (r ∷ rs) = (if p r then f r else r) ∷ update p f rs

  -- `DELETE ... WHERE p`
  unfoldable pub delete : (A → Bool) → List A → List A
  delete p rs = keep_if (λ r. not (p r)) rs

  -- `SELECT ... WHERE p`, in the order of the table.
  unfoldable pub select : (A → Bool) → List A → List A
  select p rs = keep_if p rs

  -- `ORDER BY key ASC`; rows of one key keep their order.
  unfoldable pub insert_by : (A → A → Bool) → A → List A → List A
  insert_by before r [] = r ∷ []
  insert_by before r (x ∷ xs) = if before x r then x ∷ insert_by before r xs else r ∷ x ∷ xs

  unfoldable pub order_by : (A → A → Bool) → List A → List A
  unfolding insert_by
  order_by before [] = []
  order_by before (r ∷ rs) = insert_by before r (order_by before rs)

  pub count_if-append :
      (p : A → Bool) (xs ys : List A) → count_if p (xs ++ ys) ≡ count_if p xs + count_if p ys
  unfolding count_if
  count_if-append p [] ys = omega arith
  count_if-append p (r ∷ xs) ys = omega (arith, count_if-append p xs ys)

  pub count_if-snoc :
      (p : A → Bool) (xs : List A) (r : A)
      → count_if p (xs ++ r ∷ []) ≡ count_if p xs + (if p r then 1 else 0)
  unfolding count_if
  count_if-snoc p xs r = omega (arith, count_if-append p xs (r ∷ []))

  pub count_if-update :
      (p q : A → Bool) (f : A → A) (rs : List A)
      → ((r : A) → p (f r) ≡ p r)
      → count_if p (update q f rs) ≡ count_if p rs
  unfolding count_if update
  count_if-update p q f [] h = refl
  count_if-update p q f (r ∷ rs) h = ground (arith, h r, count_if-update p q f rs)

  pub count_if-delete-le : (p q : A → Bool) (rs : List A) → count_if p (delete q rs) ≤ count_if p rs
  unfolding count_if delete
  count_if-delete-le p q [] = omega arith
  count_if-delete-le p q (r ∷ rs) = ground (arith, count_if-delete-le p q rs)

  pub count_if-delete_self : (p : A → Bool) (rs : List A) → count_if p (delete p rs) ≡ 0
  unfolding count_if delete
  count_if-delete_self p [] = refl
  count_if-delete_self p (r ∷ rs) = ground (arith, count_if-delete_self p rs)

  -- Where the deleted rows are none of those counted, the count stays.
  pub count_if-delete_other :
      (p q : A → Bool) (rs : List A)
      → ((r : A) → p r ≡ true → q r ≡ false)
      → count_if p (delete q rs) ≡ count_if p rs
  unfolding count_if delete
  count_if-delete_other p q [] h = refl
  count_if-delete_other p q (r ∷ rs) h = ground (arith, h r, count_if-delete_other p q rs h)

  pub first-none : (p : A → Bool) (rs : List A) → count_if p rs ≡ 0 → first p rs ≡ none
  unfolding count_if first
  first-none p [] h = refl
  first-none p (r ∷ rs) h = ground (arith, first-none p rs)

  pub first-some :
      (p : A → Bool) (rs : List A) {r : A}
      → first p rs ≡ some r
      → (p r ≡ true) × (0 < count_if p rs)
  unfolding count_if first
  first-some p [] h = ground arith
  first-some p (x ∷ rs) {r} h = ground (arith, first-some p rs {r = r})

  pub first-append_fresh :
      (p : A → Bool) (rs : List A) (r : A)
      → count_if p rs ≡ 0
      → p r ≡ true
      → first p (rs ++ r ∷ []) ≡ some r
  unfolding count_if first
  first-append_fresh p [] r h e = ground arith
  first-append_fresh p (x ∷ rs) r h e = ground (arith, first-append_fresh p rs r)

  pub first-append_other :
      (p : A → Bool) (rs : List A) (r : A) → p r ≡ false → first p (rs ++ r ∷ []) ≡ first p rs
  unfolding first
  first-append_other p [] r e = ground arith
  first-append_other p (x ∷ rs) r e = ground (arith, first-append_other p rs r)

  -- An update that keeps the condition changes the selected row by `f`.
  pub first-update_self :
      (p : A → Bool) (f : A → A) (rs : List A) {r : A}
      → ((x : A) → p (f x) ≡ p x)
      → first p rs ≡ some r
      → first p (update p f rs) ≡ some (f r)
  unfolding first update
  first-update_self p f [] h e = ground arith
  first-update_self p f (x ∷ rs) {r} h e = ground (arith, h x, first-update_self p f rs {r = r})

  pub first-update_other :
      (p q : A → Bool) (f : A → A) (rs : List A)
      → ((x : A) → p (f x) ≡ p x)
      → ((x : A) → p x ≡ true → q x ≡ false)
      → first p (update q f rs) ≡ first p rs
  unfolding first update
  first-update_other p q f [] h d = refl
  first-update_other p q f (x ∷ rs) h d = ground (arith, h x, d x, first-update_other p q f rs h d)

  pub first-delete_other :
      (p q : A → Bool) (rs : List A)
      → ((x : A) → p x ≡ true → q x ≡ false)
      → first p (delete q rs) ≡ first p rs
  unfolding first delete
  first-delete_other p q [] d = refl
  first-delete_other p q (x ∷ rs) d = ground (arith, d x, first-delete_other p q rs d)
