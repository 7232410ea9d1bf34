-- ===== src/Storage/MetaStore/Integrity.antt =====
-- The keys and references of the tables, through every method.
mod Defs
mod Inserts
mod Updates
pub use Defs.{IsConsistent}
use Inserts.{
  create_workspace-IsConsistent, create_execution-IsConsistent, create_snapshot-IsConsistent,
  create_artifact-IsConsistent,
}
use Updates.{
  update_workspace_status-IsConsistent, delete_workspace-IsConsistent,
  update_execution-IsConsistent, bind_scope-IsConsistent, append_pool_event-IsConsistent,
}
use xforgebox.Base.{
  ap, subst, ==_eq, ==_ne, if_cases, sym, ◌∙◌, ℕ, ◌+◌, ◌≤◌, ◌<◌, ◌≡◌, refl, String, Bool, true,
  false, not, ◌&&◌, ◌||◌, Option, none, some, List, [], ◌∷◌, ◌++◌, arith, ltb, if◌then◌else◌, ◌==◌,
  string_eq, option_eq, Bool-cases, inl, inr,
}
use xforgebox.Errors.{Result, ok, err, ◌>>=◌}
use xforgebox.Models.{
  DateTime, aware, naive, Workspace, WorkspaceStatus, Execution, Snapshot, Artifact,
}
use xforgebox.Storage.Rows.{
  count_if, has, update, delete, count_if-append, count_if-snoc, count_if-update,
  count_if-delete-le, count_if-delete_self, count_if-delete_other,
}
use xforgebox.Storage.MetaStore.{
  empty_store, workspace_row, MetaStore, ScopeBinding, Outcome, iso, iso_opt, insert_row, inserted,
  ws_is, ex_is, ex_of, ex_key, snap_is, snap_of, art_is, art_of, scope_is, scope_of, connect, close,
  create_workspace, update_workspace_status, delete_workspace, cascade,
}
use xforgebox.Storage.MetaStore.Executions.{
  key_taken, create_execution, execution_row, update_execution, Field, setter, setters, stamp,
}
use xforgebox.Storage.MetaStore.Ledgers.{
  create_snapshot, create_artifact, bind_scope, append_pool_event,
}

-- The methods that write.
pub data Call : Type 0 where
  connects closes : Call
  creates_workspace : Workspace → Call
  updates_status : String → WorkspaceStatus → DateTime → Call
  deletes_workspace : String → Call
  creates_execution : Execution → Call
  updates_execution : String → List Field → Call
  creates_snapshot : Snapshot → Call
  creates_artifact : Artifact → Call
  binds_scope : String → String → String → DateTime → Call
  appends_event : String → String → String → DateTime → Call

pub run_call : Call → MetaStore → MetaStore
run_call connects m = connect m
run_call closes m = close m
run_call (creates_workspace ws) m = (create_workspace ws m).1
run_call (updates_status id status t) m = (update_workspace_status id status t m).1
run_call (deletes_workspace id) m = (delete_workspace id m).1
run_call (creates_execution ex) m = (create_execution ex m).1
run_call (updates_execution id fs) m = (update_execution id fs m).1
run_call (creates_snapshot s) m = (create_snapshot s m).1
run_call (creates_artifact a) m = (create_artifact a m).1
run_call (binds_scope kind key ws now) m = (bind_scope kind key ws now m).1
run_call (appends_event image kind payload ts) m = (append_pool_event image kind payload ts m).1

pub run_calls : List Call → MetaStore → MetaStore
run_calls [] m = m
run_calls (c ∷ cs) m = run_calls cs (run_call c m)

run_call-IsConsistent : (k : Call) (m : MetaStore) → IsConsistent m → IsConsistent (run_call k m)
unfolding run_call connect close
run_call-IsConsistent connects m c = record {
  one_workspace = c.one_workspace;
  one_execution = c.one_execution;
  one_key = c.one_key;
  one_snapshot = c.one_snapshot;
  one_artifact = c.one_artifact;
  one_scope = c.one_scope;
  executions_owned = c.executions_owned;
  snapshots_owned = c.snapshots_owned;
  artifacts_owned = c.artifacts_owned;
  scopes_owned = c.scopes_owned;
}
run_call-IsConsistent closes m c = record {
  one_workspace = c.one_workspace;
  one_execution = c.one_execution;
  one_key = c.one_key;
  one_snapshot = c.one_snapshot;
  one_artifact = c.one_artifact;
  one_scope = c.one_scope;
  executions_owned = c.executions_owned;
  snapshots_owned = c.snapshots_owned;
  artifacts_owned = c.artifacts_owned;
  scopes_owned = c.scopes_owned;
}
run_call-IsConsistent (creates_workspace ws) m c = create_workspace-IsConsistent m c ws
run_call-IsConsistent (updates_status id s t) m c = update_workspace_status-IsConsistent m c id s t
run_call-IsConsistent (deletes_workspace id) m c = delete_workspace-IsConsistent m c id
run_call-IsConsistent (creates_execution ex) m c = create_execution-IsConsistent m c ex
run_call-IsConsistent (updates_execution id fs) m c = update_execution-IsConsistent m c id fs
run_call-IsConsistent (creates_snapshot s) m c = create_snapshot-IsConsistent m c s
run_call-IsConsistent (creates_artifact a) m c = create_artifact-IsConsistent m c a
run_call-IsConsistent (binds_scope kind key ws now) m c =
    bind_scope-IsConsistent m c kind key ws now
run_call-IsConsistent (appends_event image kind payload ts) m c =
    append_pool_event-IsConsistent m c image kind payload ts

empty_store-IsConsistent : IsConsistent empty_store
unfolding count_if
empty_store-IsConsistent = record {
  one_workspace = λ x. omega arith;
  one_execution = λ x. omega arith;
  one_key = λ x k. omega arith;
  one_snapshot = λ x. omega arith;
  one_artifact = λ x. omega arith;
  one_scope = λ k x. omega arith;
  executions_owned = λ x h. refl;
  snapshots_owned = λ x h. refl;
  artifacts_owned = λ x h. refl;
  scopes_owned = λ x h. refl;
}

run_calls-IsConsistent_from :
    (cs : List Call) (m : MetaStore) → IsConsistent m → IsConsistent (run_calls cs m)
unfolding run_calls
run_calls-IsConsistent_from [] m c = c
run_calls-IsConsistent_from (k ∷ cs) m c =
    run_calls-IsConsistent_from cs (run_call k m) (run_call-IsConsistent k m c)

-- Whatever methods are called on a new database, succeed or fail: ids are unique in their tables,
-- a workspace has one execution for each idempotency key and a scope one binding, and every
-- execution, snapshot, artifact and binding belongs to a workspace that exists.
pub run_calls-IsConsistent : (cs : List Call) → IsConsistent (run_calls cs empty_store)
run_calls-IsConsistent cs = run_calls-IsConsistent_from cs empty_store empty_store-IsConsistent
