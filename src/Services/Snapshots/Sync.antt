-- ===== src/Services/Snapshots/Sync.antt =====
-- The archives and the rows of snapshots, kept in step.
use xforgebox.Base.{
  ap, ◌≡◌, ◌≢◌, Bool, refl, sym, ◌∙◌, String, true, not, List, [], ◌∷◌, string_eq, arith, ==_refl,
  keep_if,
}
use xforgebox.Errors.{Result, ok, err, Exception, cancelled_error}
use xforgebox.Models.{Snapshot}
use xforgebox.Storage.Rows.{count_if}
use xforgebox.Storage.MetaStore.{MetaStore, Outcome, iso}
use xforgebox.Storage.MetaStore.Ledgers.{create_snapshot}
use xforgebox.Storage.SnapshotStore.{Archive, Packing, packed, unopened, archive_is, snapshot_of}
use xforgebox.Storage.SnapshotStore as Store
use xforgebox.Services.Snapshots.{Vault, undo_archive, on_archives, store_row}
use xforgebox.Services.World.{next, raises}
use xforgebox.Services.Workspaces.Sync.{insert_row-err}

remove_new :
    (a : Archive) (id : String) (archives : List Archive)
    → a.id ≡ id
    → count_if (archive_is id) archives ≡ 0
    → keep_if (λ x. not (archive_is id x)) archives ≡ archives
unfolding count_if
remove_new a id [] e free = refl
remove_new a id (x ∷ archives) e free = ground (arith, remove_new a id archives e)

create_snapshot-err :
    (s : Snapshot) (m : MetaStore) (e : Exception)
    → (create_snapshot s m).0 ≡ err e
    → (create_snapshot s m).1 ≡ m
unfolding create_snapshot
create_snapshot-err s m e h = insert_row-err m _ _ _ e h

-- The database itself raises no cancellation.
create_snapshot-real :
    (s : Snapshot) (m : MetaStore) (e : Exception)
    → (create_snapshot s m).0 ≡ err e
    → e ≢ cancelled_error
unfolding create_snapshot iso
create_snapshot-real s m e h c = ground (arith, h, c)

undo_archive-real :
    (can : Bool) (id : String) (e : Exception) (v : Vault)
    → e ≢ cancelled_error
    → undo_archive can id (err e, v) ≡ next (on_archives (Store.delete can id) v) (λ _. raises e)
undo_archive-real can id cancelled_error v real = absurd (real refl)
undo_archive-real can id _ v real = refl

-- When the row of a snapshot cannot be written, its new archive is removed and the exception goes
-- on: the vault is as it was before the archive was made.
pub store_row_undone :
    (snap : Snapshot) (a : Archive) (v : Vault) (e : Exception)
    → a.id ≡ snap.id
    → count_if (archive_is snap.id) v.archives ≡ 0
    → (create_snapshot snap v.world.meta).0 ≡ err e
    → store_row true snap (record v { archives = a ∷ v.archives }) ≡ (err e, v)
unfolding Store.delete
store_row_undone snap a v e same free fails = by_out (create_snapshot snap v.world.meta) refl
  where
    raised : Result (Unit {0}) → Exception
    raised (err x) = x
    raised (ok u) = e

    by_out :
        (o : Outcome (Unit {0}))
        → create_snapshot snap v.world.meta ≡ o
        → store_row true snap (record v { archives = a ∷ v.archives }) ≡ (err e, v)
    by_out (ok u, m) q = ground (arith, ap (λ o. o.0) q, fails)
    by_out (err x, m) q =
        let kept : m ≡ v.world.meta =
          ap (λ o. o.1) (sym q) ∙ create_snapshot-err snap v.world.meta x (ap (λ o. o.0) q) in
        let which : x ≡ e = ap raised (sym (ap (λ o. o.0) q) ∙ fails) in
        rw (
          q,
          undo_archive-real true snap.id x _
              (create_snapshot-real snap v.world.meta x (ap (λ o. o.0) q)),
          same,
          ==_refl snap.id,
          remove_new a snap.id v.archives same free,
          kept,
          which,
        )
