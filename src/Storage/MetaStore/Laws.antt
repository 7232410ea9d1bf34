-- ===== src/Storage/MetaStore/Laws.antt =====
-- What a reader of the metastore sees after a write.
use xforgebox.Base.{
  ◌≡◌, refl, ap, ap₂, subst, ◌∙◌, Bool-cases, inl, inr, ==_eq, String, Bool, true, false, none,
  List, [], ◌∷◌, ◌++◌, arith, if◌then◌else◌, ◌==◌, string_eq, option_eq,
}
use xforgebox.Errors.{Result, ok, err, not_found_error}
use xforgebox.Models.{DateTime, aware, naive, Workspace, Execution}
use xforgebox.Storage.Rows.{
  count_if, has, delete, first-none, first-append_fresh, first-append_other, count_if-delete_self,
}
use xforgebox.Storage.MetaStore.{
  MetaStore, Outcome, iso, parse_iso, row_to_workspace, or_not_found, workspace_row, insert_row,
  ws_is, ex_of, ex_key, create_workspace, get_workspace, delete_workspace,
}
use xforgebox.Storage.MetaStore.Executions.{get_execution_by_idempotency}

-- What is stored is what is read: the dates that `_iso` accepts are those that `_parse_iso` keeps.
parse_iso-iso : (d e : DateTime) → iso d ≡ ok e → (e ≡ d) × (parse_iso e ≡ d)
unfolding iso parse_iso
parse_iso-iso (aware t) e h = ground arith
parse_iso-iso (naive t) e h = cc

-- What is known of an insertion that has succeeded.
Inserted : {R : Type 0} → MetaStore → Bool → (R → MetaStore) → Result R → Type 0
Inserted {R} m refused new row =
    (r : R) × (row ≡ ok r)
    × (refused ≡ false)
    × (m.connected ≡ true)
    × (insert_row m refused new row ≡ (ok tt, new r))

insert_row-Inserted :
    {R : Type 0} (m : MetaStore) (refused : Bool) (new : R → MetaStore) (row : Result R)
    → (insert_row m refused new row).0 ≡ ok tt
    → Inserted m refused new row
unfolding Inserted
insert_row-Inserted m refused new (err e) h = ground arith
insert_row-Inserted m refused new (ok r) h = (r, refl, ground arith, ground arith, ground arith)

workspace_row-read :
    (ws row : Workspace) → workspace_row ws ≡ ok row → (row ≡ ws) × (row_to_workspace row ≡ ws)
unfolding workspace_row iso row_to_workspace parse_iso
workspace_row-read ws row h = ground arith

has-false {ℓ} :
    {A : Type ℓ} (p : A → Bool) (rows : List A) → has p rows ≡ false → count_if p rows ≡ 0
has-false p rows h = ground arith

get_workspace-append :
    (row : Workspace) (m : MetaStore) (x : String)
    → m.connected ≡ true
    → has (ws_is row.id) m.workspaces ≡ false
    → (get_workspace x (record m { workspaces = m.workspaces ++ row ∷ [] })).0
      ≡ (if row.id == x then ok (row_to_workspace row) else (get_workspace x m).0)
unfolding get_workspace or_not_found
get_workspace-append row m x up new = elim (Bool-cases (row.id == x)) [
  | inl same ↦ ground (
    arith,
    first-append_fresh (ws_is x) m.workspaces row
        (subst (λ (y : String). count_if (ws_is y) m.workspaces ≡ 0) (==_eq row.id x same)
          (has-false (ws_is row.id) m.workspaces new))
        same,
  )
  | inr other ↦ ground (arith, first-append_other (ws_is x) m.workspaces row other)
]

-- A workspace that has been created reads back as it was given, and the others as before.
pub get-create_workspace :
    (ws : Workspace) (m : MetaStore) (x : String)
    → (create_workspace ws m).0 ≡ ok tt
    → (get_workspace x (create_workspace ws m).1).0
      ≡ (if ws.id == x then ok ws else (get_workspace x m).0)
unfolding create_workspace Inserted
get-create_workspace ws m x h =
    let (row, a, b, c, d) =
      insert_row-Inserted m _ (λ r. record m { workspaces = m.workspaces ++ r ∷ [] })
        (workspace_row ws) h in
    let (e, f) = workspace_row-read ws row a in
    ap (λ (o : Outcome (Unit {0})). (get_workspace x o.1).0) d
    ∙ get_workspace-append row m x c (rw e b)
    ∙ ap₂ (λ (i : String) (w : Workspace). if i == x then ok w else (get_workspace x m).0)
        (ap (λ (w : Workspace). w.id) e) f

keys_gone :
    (id key : String) (rows : List Execution)
    → count_if (ex_key id key) (delete (ex_of id) rows) ≡ 0
unfolding count_if delete
keys_gone id key [] = refl
keys_gone id key (r ∷ rows) = ground (arith, keys_gone id key rows)

-- After a deletion neither the workspace nor any of its executions can be read.
pub get-delete_workspace :
    (id key : String) (m : MetaStore)
    → (delete_workspace id m).0 ≡ ok tt
    → let m' = (delete_workspace id m).1 in
      ((get_workspace id m').0 ≡ err not_found_error)
      × ((get_execution_by_idempotency id key m').0 ≡ ok none)
unfolding delete_workspace get_workspace get_execution_by_idempotency or_not_found
get-delete_workspace id key m h = ground (
  arith,
  first-none (ws_is id) (delete (ws_is id) m.workspaces)
      (count_if-delete_self (ws_is id) m.workspaces),
  first-none (ex_key id key) (delete (ex_of id) m.executions) (keys_gone id key m.executions),
)
