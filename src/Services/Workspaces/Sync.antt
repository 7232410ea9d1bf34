-- ===== src/Services/Workspaces/Sync.antt =====
-- The directories and the rows of workspaces, kept in step.
use xforgebox.Base.{
  ==_refl, ap, ◌≡◌, ◌≢◌, refl, sym, ◌∙◌, ℕ, String, Bool, true, false, ◌⊎◌, Option, List, [], ◌∷◌,
  string_eq, arith, Bool-cases, inl, inr, contains,
}
use xforgebox.Errors.{
  Result, ok, err, Exception, workspace_error, not_found_error, os_error, cancelled_error,
}
use xforgebox.Models.{aware, Workspace, WorkspaceSpec, WorkspaceStatus}
use xforgebox.Storage.Rows.{
  has, first, count_if, update, first-update_self, first-none, count_if-delete_self,
}
use xforgebox.Storage.MetaStore.{
  MetaStore, insert_row, workspace_row, iso, ws_is, get_workspace, create_workspace,
  update_workspace_status, delete_workspace, cascade, or_not_found,
}
use xforgebox.Storage.Rows as Rows
use xforgebox.Storage.MetaStore.Laws.{get-create_workspace}
use xforgebox.Storage.WorkspaceStore.{
  Disk, Syscalls, Rmtree, removed, stopped, valid_workspace_id, remove_dir,
}
use xforgebox.Storage.WorkspaceStore as Store
use xforgebox.Services.World.{
  World, Action, completes, ◌▷◌, next-ok, on_meta, on_disk, next, raises,
}
use xforgebox.Services.Workspaces.{tree_error, undo_create, create, delete, new_workspace}

remove_dir-other :
    (id : String) (dirs : List String) → contains dirs id ≡ false → remove_dir id dirs ≡ dirs
remove_dir-other id [] out = refl
remove_dir-other id (x ∷ dirs) out = ground (arith, remove_dir-other id dirs)

remove_dir_self : (id : String) (dirs : List String) → contains (remove_dir id dirs) id ≡ false
remove_dir_self id [] = refl
remove_dir_self id (x ∷ dirs) = ground (arith, remove_dir_self id dirs)

pub insert_row-err :
    {R : Type 0} (m : MetaStore) (refused : Bool) (new : R → MetaStore) (row : Result R)
    (e : Exception)
    → (insert_row m refused new row).0 ≡ err e
    → (insert_row m refused new row).1 ≡ m
insert_row-err m refused new (ok r) e h = ground arith
insert_row-err m refused new (err x) e h = ground arith

create_workspace-err :
    (ws : Workspace) (m : MetaStore) (e : Exception)
    → (create_workspace ws m).0 ≡ err e
    → (create_workspace ws m).1 ≡ m
unfolding create_workspace
create_workspace-err ws m e h = insert_row-err m _ _ _ e h

delete_workspace-gone :
    (id : String) (m : MetaStore)
    → (delete_workspace id m).0 ≡ ok tt
    → (get_workspace id (delete_workspace id m).1).0 ≡ err not_found_error
unfolding delete_workspace get_workspace or_not_found cascade
delete_workspace-gone id m h = ground (
  arith,
  first-none (ws_is id) (Rows.delete (ws_is id) m.workspaces)
      (count_if-delete_self (ws_is id) m.workspaces),
)

-- The database itself raises no cancellation.
create_workspace-real :
    (ws : Workspace) (m : MetaStore) (e : Exception)
    → (create_workspace ws m).0 ≡ err e
    → e ≢ cancelled_error
unfolding create_workspace workspace_row iso
create_workspace-real ws m e h c = ground (arith, h, c)

undo_create-real :
    (sys : Syscalls) (id : String) (e : Exception) (w : World)
    → e ≢ cancelled_error
    → undo_create sys id (err e, w) ≡ next (on_disk (Store.delete sys id) w) (λ _. raises e)
undo_create-real sys id cancelled_error w real = absurd (real refl)
undo_create-real sys id _ w real = refl

-- The directory of a new workspace is made, or nothing is.
make_dir :
    (sys : Syscalls) (id : String) (d : Disk)
    → sys.mkdir_meta ≡ true
    → ((valid_workspace_id id ≡ true)
        × (contains d.dirs id ≡ false)
        × (Store.create sys id d ≡ (ok id, record d { dirs = id ∷ d.dirs })))
      ⊎ ((e : Exception) × (Store.create sys id d ≡ (err e, d)))
unfolding Store.create
make_dir sys id d can = elim (Bool-cases (valid_workspace_id id)) [
  | inl valid ↦ elim (Bool-cases (contains d.dirs id)) [
    | inl there ↦ inr (workspace_error, rw (valid, there))
    | inr fresh ↦ elim (Bool-cases sys.mkdir) [
      | inl made ↦ inl (valid, fresh, rw (valid, fresh, made, can))
      | inr refused ↦ inr (os_error, rw (valid, fresh, refused))
    ]
  ]
  | inr bad ↦ inr (workspace_error, rw bad)
]

-- The directory that has just been made is removed again.
undo_dir :
    (sys : Syscalls) (id : String) (d : Disk)
    → sys.rmtree ≡ removed
    → valid_workspace_id id ≡ true
    → contains d.dirs id ≡ false
    → let out = Store.delete sys id (record d { dirs = id ∷ d.dirs }) in
      (out.0 ≡ ok tt) × (out.1.dirs ≡ d.dirs)
unfolding Store.delete
undo_dir sys id d can valid fresh =
    rw (valid, ==_refl id, can, ==_refl id) (refl, remove_dir-other id d.dirs fresh)

-- What a call of `create` comes to: a directory and a row, or an exception and no trace.
unfoldable pub AllOrNothing : String → Workspace → World → Result Workspace × World → Type 0
AllOrNothing id ws w out =
    ((out.0 ≡ ok ws)
      × (contains out.1.disk.dirs id ≡ true)
      × ((get_workspace id out.1.meta).0 ≡ ok ws))
    ⊎ ((e : Exception) × (out.0 ≡ err e) × (out.1.meta ≡ w.meta) × (out.1.disk.dirs ≡ w.disk.dirs))

-- Where `.forge/exec` can be made and a tree removed, a call of `create` that is not cancelled leaves
-- a directory and a row that reads back as the workspace returned, or raises and leaves the
-- directories and the metastore as they were.
pub create-AllOrNothing :
    (sys : Syscalls) (id : String) (now : ℕ) (spec : WorkspaceSpec) (name : Option String)
    (metadata : List (String × String)) (w : World)
    → sys.mkdir_meta ≡ true
    → sys.rmtree ≡ removed
    → AllOrNothing id
        (new_workspace id now spec name metadata)
        w
        (create sys completes id now spec name metadata w)
unfolding AllOrNothing create new_workspace
create-AllOrNothing sys id now spec name metadata w can_make can_remove =
    elim (make_dir sys id w.disk can_make) [
      | inl (valid, fresh, made) ↦ by_row (create_workspace ws w.meta) refl valid fresh made
      | inr (e, kept) ↦ inr (
        e,
        ap (λ o. o.0) (stops e kept),
        ap (λ o. o.1.meta) (stops e kept),
        ap (λ o. o.1.disk.dirs) (stops e kept),
      )
    ]
  where
    ws : Workspace
    ws = new_workspace id now spec name metadata

    call : Result Workspace × World
    call = create sys completes id now spec name metadata w

    stops : (e : Exception) → Store.create sys id w.disk ≡ (err e, w.disk) → call ≡ (err e, w)
    stops e kept = rw kept

    by_row :
        (o : Result (Unit {0}) × MetaStore)
        → create_workspace ws w.meta ≡ o
        → valid_workspace_id id ≡ true
        → contains w.disk.dirs id ≡ false
        → Store.create sys id w.disk ≡ (ok id, record w.disk { dirs = id ∷ w.disk.dirs })
        → AllOrNothing id ws w (create sys completes id now spec name metadata w)
    by_row (ok u, m) stored valid fresh made =
        let done : call
            ≡ (ok ws, record w { meta = m; disk = record w.disk { dirs = id ∷ w.disk.dirs } }) =
          rw (made, stored) in
        let reads : (get_workspace id m).0 ≡ ok ws =
          rw (ap (λ o. o.1) (sym stored))
            (get-create_workspace ws w.meta id (ap (λ o. o.0) stored) ∙ rw (==_refl id)) in
        inl (
          ap (λ o. o.0) done,
          ap (λ o. contains o.1.disk.dirs id) done ∙ rw (==_refl id),
          ap (λ o. (get_workspace id o.1.meta).0) done ∙ reads,
        )
    by_row (err e, m) stored valid fresh made =
        let gone = undo_dir sys id w.disk can_remove valid fresh in
        let undone = Store.delete sys id (record w.disk { dirs = id ∷ w.disk.dirs }) in
        let done : call ≡ (err e, record w { meta = m; disk = undone.1 }) = rw (
          made,
          stored,
          undo_create-real sys id e _ (create_workspace-real ws w.meta e (ap (λ o. o.0) stored)),
          gone.0,
        ) in
        let kept : m ≡ w.meta =
          ap (λ o. o.1) (sym stored) ∙ create_workspace-err ws w.meta e (ap (λ o. o.0) stored) in
        inr (
          e,
          ap (λ o. o.0) done,
          ap (λ o. o.1.meta) done ∙ kept,
          ap (λ o. o.1.disk.dirs) done ∙ gone.1,
        )

not-tree_error-err : (x : Exception) (w w1 : World) → ¬ (tree_error (err x, w) ≡ (ok tt, w1))
not-tree_error-err os_error w w1 h = ground arith
not-tree_error-err _ w w1 h = ground arith

removal_gone :
    (id : String) (d : Disk) (t : Rmtree)
    → (Store.removal t id d).0 ≡ ok tt
    → contains (Store.removal t id d).1.dirs id ≡ false
removal_gone id d removed h = remove_dir_self id d.dirs
removal_gone id d (stopped left) h = ground arith

store_delete-gone :
    (sys : Syscalls) (id : String) (d : Disk)
    → (Store.delete sys id d).0 ≡ ok tt
    → contains (Store.delete sys id d).1.dirs id ≡ false
unfolding Store.delete
store_delete-gone sys id d h = by_tree sys.rmtree refl
  where
    out : Result (Unit {0}) × Disk
    out = Store.delete sys id d

    by_tree : (t : Rmtree) → sys.rmtree ≡ t → contains out.1.dirs id ≡ false
    by_tree t e = elim (Bool-cases (valid_workspace_id id)) [
      | inl valid ↦ elim (Bool-cases (contains d.dirs id)) [
        | inl there ↦
            let removal : out ≡ Store.removal t id d = rw (valid, there, e) in
            ap (λ o. contains o.1.dirs id) removal
            ∙ removal_gone id d t (sym (ap (λ o. o.0) removal) ∙ h)
        | inr absent ↦
            let kept : out ≡ (ok tt, d) = rw (valid, absent) in
            ap (λ o. contains o.1.dirs id) kept ∙ absent
      ]
      | inr bad ↦
          let raised : out ≡ (err workspace_error, d) = rw bad in
          ground (arith, ap (λ o. o.0) raised, h)
    ]

tree_removed :
    (sys : Syscalls) (id : String) (w w1 : World)
    → tree_error (on_disk (Store.delete sys id) w) ≡ (ok tt, w1)
    → contains w1.disk.dirs id ≡ false
tree_removed sys id w w1 h = by_result (Store.delete sys id w.disk) refl h
  where
    by_result :
        (o : Result (Unit {0}) × Disk)
        → Store.delete sys id w.disk ≡ o
        → tree_error (o.0, record w { disk = o.1 }) ≡ (ok tt, w1)
        → contains w1.disk.dirs id ≡ false
    by_result (ok u, d) e k =
        ap (λ o. contains o.1.disk.dirs id) (sym k)
        ∙ ap (λ o. contains o.1.dirs id) (sym e)
        ∙ store_delete-gone sys id w.disk (ap (λ o. o.0) e)
    by_result (err x, d) e k = absurd (not-tree_error-err x _ w1 k)

-- A workspace that has been deleted has neither directory nor row.
pub delete_leaves_nothing :
    (sys : Syscalls) (now : ℕ) (id : String) (w : World)
    → (delete sys now id w).0 ≡ ok tt
    → let after = (delete sys now id w).1 in
      (contains after.disk.dirs id ≡ false)
      × ((get_workspace id after.meta).0 ≡ err not_found_error)
unfolding delete
delete_leaves_nothing sys now id w h =
    let mark : Action (Unit {0}) = on_meta (get_workspace id) ▷ λ _.
    on_meta (update_workspace_status id WorkspaceStatus.deleting (aware now)) in
    let remove : Unit {0} → Action (Unit {0}) =
      λ _ x. tree_error (on_disk (Store.delete sys id) x) in
    let drop_row : Unit {0} → Action (Unit {0}) = λ _. on_meta (delete_workspace id) in
    let (u, w1, third, last) = next-ok (next (mark w) remove) drop_row tt h in
    let (v, w0, second, tree) = next-ok (mark w) remove tt (ap (λ o. o.0) third) in
    let gone = ap (λ o. o.0) (sym last) ∙ h in
    (
      ap (λ o. contains o.1.disk.dirs id) last ∙ tree_removed sys id w0 w1 (sym tree ∙ third),
      ap (λ o. (get_workspace id o.1.meta).0) last ∙ delete_workspace-gone id w1.meta gone,
    )
