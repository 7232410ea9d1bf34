-- ===== src/Storage/MetaStore/Integrity/Defs.antt =====
-- The keys and references of the tables, and what an insertion, an update or a deletion does to them.
use xforgebox.Base.{
  ==_eq, ==_ne, if_cases, sym, ◌∙◌, ◌≤◌, ◌≡◌, refl, String, Bool, false, List, [], ◌∷◌, arith, ◌==◌,
  string_eq, option_eq, Bool-cases, inl, inr,
}
use xforgebox.Errors.{Result, ok, err}
use xforgebox.Models.{Workspace, Execution}
use xforgebox.Storage.Rows.{
  count_if, has, update, delete, count_if-delete-le, count_if-delete_self, count_if-delete_other,
}
use xforgebox.Storage.MetaStore.{
  workspace_row, MetaStore, ScopeBinding, Outcome, insert_row, inserted, ws_is, ex_is, ex_of,
  ex_key, snap_is, snap_of, art_is, art_of, scope_is, scope_of,
}
use xforgebox.Storage.MetaStore.Executions.{execution_row}

-- Primary keys, the unique index of the idempotency keys, and the references to workspaces.
pub record IsConsistent (m : MetaStore) : Type 0 where
  pub one_workspace : (x : String) → count_if (ws_is x) m.workspaces ≤ 1
  pub one_execution : (x : String) → count_if (ex_is x) m.executions ≤ 1
  pub one_key : (x k : String) → count_if (ex_key x k) m.executions ≤ 1
  pub one_snapshot : (x : String) → count_if (snap_is x) m.snapshots ≤ 1
  pub one_artifact : (x : String) → count_if (art_is x) m.artifacts ≤ 1
  pub one_scope : (k x : String) → count_if (scope_is k x) m.scope_bindings ≤ 1
  pub executions_owned :
      (x : String) → count_if (ws_is x) m.workspaces ≡ 0 → count_if (ex_of x) m.executions ≡ 0
  pub snapshots_owned :
      (x : String) → count_if (ws_is x) m.workspaces ≡ 0 → count_if (snap_of x) m.snapshots ≡ 0
  pub artifacts_owned :
      (x : String) → count_if (ws_is x) m.workspaces ≡ 0 → count_if (art_of x) m.artifacts ≡ 0
  pub scopes_owned :
      (x : String)
      → count_if (ws_is x) m.workspaces ≡ 0
      → count_if (scope_of x) m.scope_bindings ≡ 0

-- The rows that refer to `x` are gone with the row of `x`, whichever row is deleted.
pub owned-delete {ℓ κ} :
    {A : Type ℓ} {B : Type κ} (f : A → String) (g : B → String) (xs : List A) (ys : List B)
    (id x : String)
    → (count_if (λ a. f a == x) xs ≡ 0 → count_if (λ b. g b == x) ys ≡ 0)
    → count_if (λ a. f a == x) (delete (λ a. f a == id) xs) ≡ 0
    → count_if (λ b. g b == x) (delete (λ b. g b == id) ys) ≡ 0
owned-delete f g xs ys id x owned gone = elim (Bool-cases (x == id)) [
  | inl same ↦ rw (==_eq x id same) (count_if-delete_self (λ b. g b == id) ys)
  | inr other ↦ omega (
    arith,
    count_if-delete-le (λ b. g b == x) (λ b. g b == id) ys,
    owned (
        sym (
          count_if-delete_other (λ a. f a == x) (λ a. f a == id) xs
            (λ r h. ==_ne (f r) x h id other))
        ∙ gone),
  )
]

-- What an insertion leaves: the old store, or the new one if nothing forbids it.
pub insert_row-cases {ℓ} :
    (P : MetaStore → Type ℓ) (m : MetaStore) {R : Type 0} (refused : Bool) (new : R → MetaStore)
    (row : Result R)
    → P m
    → ((r : R) → row ≡ ok r → refused ≡ false → P (new r))
    → P (insert_row m refused new row).1
insert_row-cases P m refused new row same done =
    if_cases (λ (o : Outcome (Unit {0})). P o.1) m.connected (λ _. by_row row refl) (λ _. same)
  where
    by_row : (r : Result _) → row ≡ r → P (inserted m refused new r).1
    by_row (err e) q = same
    by_row (ok r) q =
        if_cases (λ (o : Outcome (Unit {0})). P o.1) refused (λ _. same) (λ free. done r q free)

-- Bindings that are moved to `ws` are no more bindings of another workspace.
pub moved-le :
    (kind key ws x : String) (rows : List ScopeBinding)
    → (ws == x) ≡ false
    → count_if (scope_of x) (update (scope_is kind key) (λ b. record b { workspace_id = ws }) rows)
      ≤ count_if (scope_of x) rows
unfolding count_if update
moved-le kind key ws x [] h = omega arith
moved-le kind key ws x (r ∷ rows) h = ground (arith, moved-le kind key ws x rows h)

pub has-zero {ℓ} :
    {A : Type ℓ} (p : A → Bool) (rows : List A) → count_if p rows ≡ 0 → has p rows ≡ false
has-zero p rows h = ground arith

pub workspace_row-id : (ws row : Workspace) → workspace_row ws ≡ ok row → row.id ≡ ws.id
unfolding workspace_row
workspace_row-id ws row h = ground arith

pub execution_row-keys :
    (ex row : Execution)
    → execution_row ex ≡ ok row
    → (row.id ≡ ex.id)
      × (row.workspace_id ≡ ex.workspace_id)
      × (row.idempotency_key ≡ ex.idempotency_key)
unfolding execution_row
execution_row-keys ex row h = ground arith
