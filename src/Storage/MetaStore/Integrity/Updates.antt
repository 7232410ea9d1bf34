-- ===== src/Storage/MetaStore/Integrity/Updates.antt =====
-- The updates and the deletion of the metastore keep its keys and references.
use xforgebox.Base.{
  ap, subst, ==_eq, if_cases, sym, ◌∙◌, ◌≡◌, refl, String, true, false, not, List, [], ◌∷◌, ◌++◌,
  arith, if◌then◌else◌, ◌==◌, string_eq, option_eq, Bool-cases, inl, inr,
}
use xforgebox.Errors.{Result, ok, err, ◌>>=◌}
use xforgebox.Models.{DateTime, Workspace, WorkspaceStatus, Execution, Snapshot, Artifact}
use xforgebox.Storage.Rows.{has, update, count_if-snoc, count_if-update, count_if-delete-le}
use xforgebox.Storage.MetaStore.{
  MetaStore, ScopeBinding, Outcome, iso, ws_is, ex_is, ex_of, ex_key, snap_is, snap_of, art_is,
  art_of, scope_is, scope_of, status_written, update_workspace_status, delete_workspace, cascade,
}
use xforgebox.Storage.MetaStore.Executions.{
  update_execution, any_unknown, written, started_at, finished_at, Field, setter, setters, stamp,
}
use xforgebox.Storage.MetaStore.Ledgers.{bind_scope, append_pool_event, event_written}
use xforgebox.Storage.MetaStore.Integrity.Defs.{
  IsConsistent, owned-delete, insert_row-cases, moved-le, has-zero,
}

module _ (m : MetaStore) (c : IsConsistent m) where
  -- An update that leaves the keys alone.
  pub update_workspaces-IsConsistent :
      (id : String) (f : Workspace → Workspace)
      → ((w : Workspace) → (f w).id ≡ w.id)
      → IsConsistent (record m { workspaces = update (ws_is id) f m.workspaces })
  update_workspaces-IsConsistent id f same = record {
    one_workspace = λ x.
        rw
          (count_if-update (ws_is x) (ws_is id) f m.workspaces
            (λ w. ap (λ (s : String). s == x) (same w)))
          (c.one_workspace x);
    one_execution = c.one_execution;
    one_key = c.one_key;
    one_snapshot = c.one_snapshot;
    one_artifact = c.one_artifact;
    one_scope = c.one_scope;
    executions_owned = λ x h. c.executions_owned x (
        sym (
          count_if-update (ws_is x) (ws_is id) f m.workspaces
            (λ w. ap (λ (s : String). s == x) (same w)))
        ∙ h);
    snapshots_owned = λ x h. c.snapshots_owned x (
        sym (
          count_if-update (ws_is x) (ws_is id) f m.workspaces
            (λ w. ap (λ (s : String). s == x) (same w)))
        ∙ h);
    artifacts_owned = λ x h. c.artifacts_owned x (
        sym (
          count_if-update (ws_is x) (ws_is id) f m.workspaces
            (λ w. ap (λ (s : String). s == x) (same w)))
        ∙ h);
    scopes_owned = λ x h. c.scopes_owned x (
        sym (
          count_if-update (ws_is x) (ws_is id) f m.workspaces
            (λ w. ap (λ (s : String). s == x) (same w)))
        ∙ h);
  }

  pub update_executions-IsConsistent :
      (id : String) (f : Execution → Execution)
      → ((r : Execution)
          → ((f r).id ≡ r.id)
            × ((f r).workspace_id ≡ r.workspace_id)
            × ((f r).idempotency_key ≡ r.idempotency_key))
      → IsConsistent (record m { executions = update (ex_is id) f m.executions })
  update_executions-IsConsistent id f same = record {
    one_workspace = c.one_workspace;
    one_execution = λ x.
        rw
          (count_if-update (ex_is x) (ex_is id) f m.executions
            (λ r. ap (λ (s : String). s == x) (same r).0))
          (c.one_execution x);
    one_key = λ x k.
        rw (count_if-update (ex_key x k) (ex_is id) f m.executions (λ r. ground (arith, same r)))
          (c.one_key x k);
    one_snapshot = c.one_snapshot;
    one_artifact = c.one_artifact;
    one_scope = c.one_scope;
    executions_owned = λ x h.
        rw
          (count_if-update (ex_of x) (ex_is id) f m.executions
            (λ r. ap (λ (s : String). s == x) (same r).1))
          (c.executions_owned x h);
    snapshots_owned = c.snapshots_owned;
    artifacts_owned = c.artifacts_owned;
    scopes_owned = c.scopes_owned;
  }

  pub add_scope-IsConsistent :
      (row : ScopeBinding)
      → has (scope_is row.scope_kind row.scope_key) m.scope_bindings ≡ false
      → has (ws_is row.workspace_id) m.workspaces ≡ true
      → IsConsistent (record m { scope_bindings = m.scope_bindings ++ row ∷ [] })
  add_scope-IsConsistent row new there = record {
    one_workspace = c.one_workspace;
    one_execution = c.one_execution;
    one_key = c.one_key;
    one_snapshot = c.one_snapshot;
    one_artifact = c.one_artifact;
    one_scope = λ k x.
        ground (arith, c.one_scope k x, count_if-snoc (scope_is k x) m.scope_bindings row, new);
    executions_owned = c.executions_owned;
    snapshots_owned = c.snapshots_owned;
    artifacts_owned = c.artifacts_owned;
    scopes_owned = λ x h.
        ground (arith, c.scopes_owned x h, count_if-snoc (scope_of x) m.scope_bindings row, there);
  }

  pub move_scope-IsConsistent :
      (kind key ws : String)
      → has (ws_is ws) m.workspaces ≡ true
      → IsConsistent (record m {
        scope_bindings =
            update (scope_is kind key) (λ b. record b { workspace_id = ws }) m.scope_bindings;
      })
  move_scope-IsConsistent kind key ws there = record {
    one_workspace = c.one_workspace;
    one_execution = c.one_execution;
    one_key = c.one_key;
    one_snapshot = c.one_snapshot;
    one_artifact = c.one_artifact;
    one_scope = λ k x.
        rw
          (count_if-update (scope_is k x) (scope_is kind key) (λ b. record b { workspace_id = ws })
            m.scope_bindings (λ b. refl))
          (c.one_scope k x);
    executions_owned = c.executions_owned;
    snapshots_owned = c.snapshots_owned;
    artifacts_owned = c.artifacts_owned;
    scopes_owned = λ x h. elim (Bool-cases (ws == x)) [
      | inl same ↦ cc (
        subst (λ (y : String). has (ws_is y) m.workspaces ≡ true) (==_eq ws x same) there,
        has-zero (ws_is x) m.workspaces h,
      )
      | inr other ↦ omega (arith, c.scopes_owned x h, moved-le kind key ws x m.scope_bindings other)
    ];
  }

  pub cascade-IsConsistent : (id : String) → IsConsistent (cascade id m)
  unfolding cascade
  cascade-IsConsistent id = record {
    one_workspace =
        λ x. omega (arith, c.one_workspace x, count_if-delete-le (ws_is x) (ws_is id) m.workspaces);
    one_execution =
        λ x. omega (arith, c.one_execution x, count_if-delete-le (ex_is x) (ex_of id) m.executions);
    one_key = λ x k.
        omega (arith, c.one_key x k, count_if-delete-le (ex_key x k) (ex_of id) m.executions);
    one_snapshot = λ x.
        omega (arith, c.one_snapshot x, count_if-delete-le (snap_is x) (snap_of id) m.snapshots);
    one_artifact =
        λ x. omega (arith, c.one_artifact x, count_if-delete-le (art_is x) (art_of id) m.artifacts);
    one_scope = λ k x.
        omega (
          arith,
          c.one_scope k x,
          count_if-delete-le (scope_is k x) (scope_of id) m.scope_bindings,
        );
    executions_owned = λ x.
        owned-delete (λ (w : Workspace). w.id) (λ (e : Execution). e.workspace_id) m.workspaces
          m.executions id x (c.executions_owned x);
    snapshots_owned = λ x.
        owned-delete (λ (w : Workspace). w.id) (λ (e : Snapshot). e.workspace_id) m.workspaces
          m.snapshots id x (c.snapshots_owned x);
    artifacts_owned = λ x.
        owned-delete (λ (w : Workspace). w.id) (λ (e : Artifact). e.workspace_id) m.workspaces
          m.artifacts id x (c.artifacts_owned x);
    scopes_owned = λ x.
        owned-delete (λ (w : Workspace). w.id) (λ (e : ScopeBinding). e.workspace_id) m.workspaces
          m.scope_bindings id x (c.scopes_owned x);
  }

-- The arguments of `update_execution` set no key.
abbrev KeepsKeys : (Execution → Execution) → Type 0
KeepsKeys g =
    (r : Execution)
    → ((g r).id ≡ r.id)
      × ((g r).workspace_id ≡ r.workspace_id)
      × ((g r).idempotency_key ≡ r.idempotency_key)

abbrev IfOk {ℓ} : {A : Type ℓ} → (A → Type 0) → Result A → Type 0
IfOk P (ok a) = P a
IfOk P (err e) = Unit

bind-IfOk {ℓ κ} :
    {A : Type ℓ} {B : Type κ} (P : B → Type 0) (r : Result A) (f : A → Result B)
    → ((a : A) → IfOk P (f a))
    → IfOk P (r >>= f)
bind-IfOk P (ok a) f h = h a
bind-IfOk P (err e) f h = tt

setter-IfOk : (f : Field) → IfOk KeepsKeys (setter f)
unfolding setter
setter-IfOk (started_at v) =
    bind-IfOk KeepsKeys (stamp v) (λ t. ok λ r. record r { started_at = t })
      (λ t r. (refl, refl, refl))
setter-IfOk (finished_at v) =
    bind-IfOk KeepsKeys (stamp v) (λ t. ok λ r. record r { finished_at = t })
      (λ t r. (refl, refl, refl))
setter-IfOk _ = λ r. (refl, refl, refl)

compose-IfOk :
    (f g : Result (Execution → Execution))
    → IfOk KeepsKeys f
    → IfOk KeepsKeys g
    → IfOk KeepsKeys (f >>= λ a. g >>= λ b. ok λ r. b (a r))
compose-IfOk (ok a) (ok b) h k =
    λ r. ((k (a r)).0 ∙ (h r).0, (k (a r)).1 ∙ (h r).1, (k (a r)).2 ∙ (h r).2)
compose-IfOk (ok a) (err e) h k = tt
compose-IfOk (err e) g h k = tt

pub setters-IfOk : (fs : List Field) → IfOk KeepsKeys (setters fs)
unfolding setters
setters-IfOk [] = λ r. (refl, refl, refl)
setters-IfOk (f ∷ fs) = compose-IfOk (setter f) (setters fs) (setter-IfOk f) (setters-IfOk fs)

module _ (m : MetaStore) (c : IsConsistent m) where
  pub update_workspace_status-IsConsistent :
      (id : String) (s : WorkspaceStatus) (t : DateTime)
      → IsConsistent (update_workspace_status id s t m).1
  unfolding update_workspace_status
  update_workspace_status-IsConsistent id s t =
      if_cases (λ (o : Outcome (Unit {0})). IsConsistent o.1) m.connected (λ _. by_date (iso t))
        (λ _. c)
    where
      by_date : (r : Result DateTime) → IsConsistent (status_written id s m r).1
      by_date (err e) = c
      by_date (ok d) =
          if_cases (λ (o : Outcome (Unit {0})). IsConsistent o.1) (has (ws_is id) m.workspaces)
            (λ _.
              update_workspaces-IsConsistent m c id (λ w. record w { status = s; updated_at = d })
                (λ w. refl))
            (λ _. c)

  pub update_execution-IsConsistent :
      (id : String) (fs : List Field) → IsConsistent (update_execution id fs m).1
  unfolding update_execution
  update_execution-IsConsistent id [] = c
  update_execution-IsConsistent id (f ∷ fs) =
      if_cases (λ (o : Outcome (Unit {0})). IsConsistent o.1) (any_unknown (f ∷ fs)) (λ _. c)
        (λ _. by_setters (setters (f ∷ fs)) (setters-IfOk (f ∷ fs)))
    where
      by_setters :
          (g : Result (Execution → Execution)) → IfOk KeepsKeys g → IsConsistent (written id m g).1
      by_setters (err e) h = c
      by_setters (ok g) h =
          if_cases (λ (o : Outcome (Unit {0})). IsConsistent o.1) m.connected
            (λ _.
              if_cases (λ (o : Outcome (Unit {0})). IsConsistent o.1) (has (ex_is id) m.executions)
                (λ _. update_executions-IsConsistent m c id g h) (λ _. c))
            (λ _. c)

  pub delete_workspace-IsConsistent : (id : String) → IsConsistent (delete_workspace id m).1
  unfolding delete_workspace
  delete_workspace-IsConsistent id =
      if_cases (λ (o : Outcome (Unit {0})). IsConsistent o.1) m.connected
        (λ _.
          if_cases (λ (o : Outcome (Unit {0})). IsConsistent o.1) (has (ws_is id) m.workspaces)
            (λ _. cascade-IsConsistent m c id) (λ _. c))
        (λ _. c)

  pub bind_scope-IsConsistent :
      (kind key ws : String) (now : DateTime) → IsConsistent (bind_scope kind key ws now m).1
  unfolding bind_scope
  bind_scope-IsConsistent kind key ws now =
      insert_row-cases IsConsistent m (not (has (ws_is ws) m.workspaces))
        (λ t.
          if has (scope_is kind key) m.scope_bindings
          then record m {
            scope_bindings =
                update (scope_is kind key) (λ b. record b { workspace_id = ws }) m.scope_bindings;
          }
          else record m {
            scope_bindings =
                m.scope_bindings
                ++ record { scope_kind = kind; scope_key = key; workspace_id = ws; created_at = t }
                  ∷ [];
          })
        (iso now) c
        λ t e free.
          if_cases IsConsistent (has (scope_is kind key) m.scope_bindings)
            (λ _. move_scope-IsConsistent m c kind key ws (ground arith))
            (λ new.
              add_scope-IsConsistent m c
                (record { scope_kind = kind; scope_key = key; workspace_id = ws; created_at = t })
                new (ground arith))

  pub append_pool_event-IsConsistent :
      (image kind payload : String) (ts : DateTime)
      → IsConsistent (append_pool_event image kind payload ts m).1
  unfolding append_pool_event
  append_pool_event-IsConsistent image kind payload ts =
      if_cases (λ (o : Outcome (Unit {0})). IsConsistent o.1) m.connected (λ _. by_date (iso ts))
        (λ _. c)
    where
      by_date : (r : Result DateTime) → IsConsistent (event_written image kind payload m r).1
      by_date (err e) = c
      by_date (ok t) = record {
        one_workspace = c.one_workspace;
        one_execution = c.one_execution;
        one_key = c.one_key;
        one_snapshot = c.one_snapshot;
        one_artifact = c.one_artifact;
        one_scope = c.one_scope;
        executions_owned = c.executions_owned;
        snapshots_owned = c.snapshots_owned;
        artifacts_owned = c.artifacts_owned;
        scopes_owned = c.scopes_owned;
      }
