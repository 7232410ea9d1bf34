-- ===== src/Storage/MetaStore/Integrity/Inserts.antt =====
-- The insertions of the metastore keep its keys and references.
use xforgebox.Base.{[], ◌∷◌, ◌++◌, arith, string_eq, option_eq}
use xforgebox.Models.{Workspace, Execution, Snapshot, Artifact}
use xforgebox.Storage.Rows.{count_if-snoc}
use xforgebox.Storage.MetaStore.{
  MetaStore, ws_is, ex_is, ex_of, ex_key, snap_is, snap_of, art_is, art_of, create_workspace,
}
use xforgebox.Storage.MetaStore.Executions.{create_execution}
use xforgebox.Storage.MetaStore.Ledgers.{create_snapshot, create_artifact}
use xforgebox.Storage.MetaStore.Integrity.Defs.{
  IsConsistent, insert_row-cases, workspace_row-id, execution_row-keys,
}

module _ (m : MetaStore) (c : IsConsistent m) where
  pub create_workspace-IsConsistent : (ws : Workspace) → IsConsistent (create_workspace ws m).1
  unfolding create_workspace
  create_workspace-IsConsistent ws =
      insert_row-cases IsConsistent m _ (λ row. record m { workspaces = m.workspaces ++ row ∷ [] })
        _ c
        λ row e free. record {
          one_workspace = λ x. ground (
            arith,
            c.one_workspace x,
            count_if-snoc (ws_is x) m.workspaces row,
            workspace_row-id ws row e,
            free,
          );
          one_execution = c.one_execution;
          one_key = c.one_key;
          one_snapshot = c.one_snapshot;
          one_artifact = c.one_artifact;
          one_scope = c.one_scope;
          executions_owned = λ x h.
              c.executions_owned x (omega (arith, h, count_if-snoc (ws_is x) m.workspaces row));
          snapshots_owned = λ x h.
              c.snapshots_owned x (omega (arith, h, count_if-snoc (ws_is x) m.workspaces row));
          artifacts_owned = λ x h.
              c.artifacts_owned x (omega (arith, h, count_if-snoc (ws_is x) m.workspaces row));
          scopes_owned =
              λ x h. c.scopes_owned x (omega (arith, h, count_if-snoc (ws_is x) m.workspaces row));
        }

  pub create_execution-IsConsistent : (ex : Execution) → IsConsistent (create_execution ex m).1
  unfolding create_execution
  create_execution-IsConsistent ex =
      insert_row-cases IsConsistent m _ (λ row. record m { executions = m.executions ++ row ∷ [] })
        _ c
        λ row e free. record {
          one_workspace = c.one_workspace;
          one_execution = λ x. ground (
            arith,
            c.one_execution x,
            count_if-snoc (ex_is x) m.executions row,
            (execution_row-keys ex row e).0,
            free,
          );
          one_key = λ x k. ground (
            arith,
            c.one_key x k,
            count_if-snoc (ex_key x k) m.executions row,
            execution_row-keys ex row e,
            free,
          );
          one_snapshot = c.one_snapshot;
          one_artifact = c.one_artifact;
          one_scope = c.one_scope;
          executions_owned = λ x h. ground (
            arith,
            c.executions_owned x h,
            count_if-snoc (ex_of x) m.executions row,
            (execution_row-keys ex row e).1,
            free,
          );
          snapshots_owned = c.snapshots_owned;
          artifacts_owned = c.artifacts_owned;
          scopes_owned = c.scopes_owned;
        }

  pub create_snapshot-IsConsistent : (s : Snapshot) → IsConsistent (create_snapshot s m).1
  unfolding create_snapshot
  create_snapshot-IsConsistent s =
      insert_row-cases IsConsistent m _
        (λ t. record m { snapshots = m.snapshots ++ record s { created_at = t } ∷ [] }) _ c
        λ t e free. record {
          one_workspace = c.one_workspace;
          one_execution = c.one_execution;
          one_key = c.one_key;
          one_snapshot = λ x. ground (
            arith,
            c.one_snapshot x,
            count_if-snoc (snap_is x) m.snapshots (record s { created_at = t }),
            free,
          );
          one_artifact = c.one_artifact;
          one_scope = c.one_scope;
          executions_owned = c.executions_owned;
          snapshots_owned = λ x h. ground (
            arith,
            c.snapshots_owned x h,
            count_if-snoc (snap_of x) m.snapshots (record s { created_at = t }),
            free,
          );
          artifacts_owned = c.artifacts_owned;
          scopes_owned = c.scopes_owned;
        }

  pub create_artifact-IsConsistent : (s : Artifact) → IsConsistent (create_artifact s m).1
  unfolding create_artifact
  create_artifact-IsConsistent s =
      insert_row-cases IsConsistent m _
        (λ t. record m { artifacts = m.artifacts ++ record s { created_at = t } ∷ [] }) _ c
        λ t e free. record {
          one_workspace = c.one_workspace;
          one_execution = c.one_execution;
          one_key = c.one_key;
          one_snapshot = c.one_snapshot;
          one_artifact = λ x. ground (
            arith,
            c.one_artifact x,
            count_if-snoc (art_is x) m.artifacts (record s { created_at = t }),
            free,
          );
          one_scope = c.one_scope;
          executions_owned = c.executions_owned;
          snapshots_owned = c.snapshots_owned;
          artifacts_owned = λ x h. ground (
            arith,
            c.artifacts_owned x h,
            count_if-snoc (art_of x) m.artifacts (record s { created_at = t }),
            free,
          );
          scopes_owned = c.scopes_owned;
        }
