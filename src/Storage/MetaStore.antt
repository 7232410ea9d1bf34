-- ===== src/Storage/MetaStore.antt =====
-- src/forge/storage/meta_store.py over the schema of src/forge/storage/migrations.py. A table is
-- its list of rows in the order of insertion; a column that holds JSON or an ISO text holds the
-- value itself. A method takes the store and returns its result and the store after it.
pub mod Executions
pub mod Ledgers
pub mod Integrity
pub mod Laws
mod Examples
use xforgebox.Base.{
  ℕ, zero, suc, ◌+◌, String, Bool, true, false, not, ◌&&◌, ◌||◌, Option, none, some, List, [], ◌∷◌,
  ◌++◌, map, ltb, leb, take, if◌then◌else◌, ◌==◌, string_eq, option_eq, Eq,
}
use xforgebox.Errors.{
  Result, ok, err, ◌>>=◌, ◌>>◌, Exception, config_error, not_found_error, integrity_error,
}
use xforgebox.Models.{
  DateTime, aware, naive, ℤ, Workspace, WorkspaceStatus, WorkspaceStatus-discrete, Execution,
  ExecutionStatus, Snapshot, Artifact,
}
use xforgebox.Storage.Rows.{count_if, has, first, update, delete, select, order_by}

-- One row of `scope_bindings` and of `pool_events`; the payload of an event is a text.
pub record ScopeBinding : Type 0 where
  pub scope_kind : String
  pub scope_key : String
  pub workspace_id : String
  pub created_at : DateTime

pub record PoolEvent : Type 0 where
  pub id : ℕ
  pub ts : DateTime
  pub image : String
  pub kind : String
  pub payload : String

pub record MetaStore : Type 0 where
  pub connected : Bool
  pub workspaces : List Workspace
  pub executions : List Execution
  pub snapshots : List Snapshot
  pub artifacts : List Artifact
  pub scope_bindings : List ScopeBinding
  pub pool_events : List PoolEvent
  pub next_event : ℕ

-- A database file after the migrations have first run.
abbrev pub empty_store : MetaStore
empty_store = record {
  connected = true;
  workspaces = [];
  executions = [];
  snapshots = [];
  artifacts = [];
  scope_bindings = [];
  pool_events = [];
  next_event = 1;
}

-- What a method that touches the store returns.
abbrev pub Outcome : Type 0 → Type 0
Outcome A = Result A × MetaStore

abbrev pub fails {ℓ} : {A : Type ℓ} → Exception → MetaStore → Result A × MetaStore
fails e m = (err e, m)

-- `_iso`: a naive datetime is refused.
unfoldable pub iso : DateTime → Result DateTime
iso (aware t) = ok (aware t)
iso (naive t) = err config_error

unfoldable pub iso_opt : Option DateTime → Result (Option DateTime)
unfolding iso
iso_opt none = ok none
iso_opt (some d) = iso d >>= λ t. ok (some t)

-- `_parse_iso`: a legacy row without a time zone is read as UTC.
unfoldable pub parse_iso : DateTime → DateTime
parse_iso (aware t) = aware t
parse_iso (naive t) = aware t

unfoldable pub parse_iso_opt : Option DateTime → Option DateTime
unfolding parse_iso
parse_iso_opt none = none
parse_iso_opt (some d) = some (parse_iso d)

-- `_row_to_workspace` and the other readers of rows.
unfoldable pub row_to_workspace : Workspace → Workspace
unfolding parse_iso
row_to_workspace r = record r {
  created_at = parse_iso r.created_at;
  updated_at = parse_iso r.updated_at;
}

unfoldable pub row_to_execution : Execution → Execution
unfolding parse_iso_opt
row_to_execution r = record r {
  started_at = parse_iso_opt r.started_at;
  finished_at = parse_iso_opt r.finished_at;
}

unfoldable pub row_to_snapshot : Snapshot → Snapshot
unfolding parse_iso
row_to_snapshot r = record r { created_at = parse_iso r.created_at }

unfoldable pub row_to_artifact : Artifact → Artifact
unfolding parse_iso
row_to_artifact r = record r { created_at = parse_iso r.created_at }

-- ISO texts of one time zone are ordered as their instants.
abbrev pub instant : DateTime → ℕ
instant (aware t) = t
instant (naive t) = t

-- `WHERE id = ?` and the other conditions.
abbrev pub ws_is : String → Workspace → Bool
ws_is x w = w.id == x

abbrev pub ex_is : String → Execution → Bool
ex_is x e = e.id == x

abbrev pub ex_of : String → Execution → Bool
ex_of x e = e.workspace_id == x

abbrev pub ex_key : String → String → Execution → Bool
ex_key ws key e = e.workspace_id == ws && e.idempotency_key == some key

abbrev pub snap_is : String → Snapshot → Bool
snap_is x s = s.id == x

abbrev pub snap_of : String → Snapshot → Bool
snap_of x s = s.workspace_id == x

abbrev pub art_is : String → Artifact → Bool
art_is x a = a.id == x

abbrev pub art_of : String → Artifact → Bool
art_of x a = a.workspace_id == x

abbrev pub scope_is : String → String → ScopeBinding → Bool
scope_is kind key b = b.scope_kind == kind && b.scope_key == key

abbrev pub scope_of : String → ScopeBinding → Bool
scope_of x b = b.workspace_id == x

-- `_conn`
abbrev pub with_conn {ℓ} : {A : Type ℓ} → MetaStore → Result A × MetaStore → Result A × MetaStore
with_conn m out = if m.connected then out else (err config_error, m)

-- An `INSERT` of a row whose values may fail to be built; the database refuses it where a key or
-- a reference is violated.
abbrev pub inserted :
    {R : Type 0} → MetaStore → Bool → (R → MetaStore) → Result R → Outcome (Unit {0})
inserted m refused new (err e) = (err e, m)
inserted m refused new (ok row) = if refused then (err integrity_error, m) else (ok tt, new row)

abbrev pub insert_row :
    {R : Type 0} → MetaStore → Bool → (R → MetaStore) → Result R → Outcome (Unit {0})
insert_row m refused new row = with_conn m (inserted m refused new row)

-- `connect` and `close`: the migrations only create what is missing.
unfoldable pub connect : MetaStore → MetaStore
connect m = record m { connected = true }

unfoldable pub close : MetaStore → MetaStore
close m = record m { connected = false }

-- The row of a workspace, with its dates as `_iso` passes them.
unfoldable pub workspace_row : Workspace → Result Workspace
unfolding iso
workspace_row ws = iso ws.created_at >>= λ c.
    iso ws.updated_at >>= λ u. ok (record ws { created_at = c; updated_at = u })

unfoldable pub create_workspace : Workspace → MetaStore → Outcome (Unit {0})
unfolding workspace_row count_if
create_workspace ws m =
    insert_row m (has (ws_is ws.id) m.workspaces)
      (λ row. record m { workspaces = m.workspaces ++ row ∷ [] }) (workspace_row ws)

-- The row that a `SELECT` finds, as the model object that `read` makes of it.
unfoldable pub or_not_found {ℓ κ} : {A : Type ℓ} {B : Type κ} → (A → B) → Option A → Result B
or_not_found read none = err not_found_error
or_not_found read (some r) = ok (read r)

unfoldable pub get_workspace : String → MetaStore → Outcome Workspace
unfolding first row_to_workspace or_not_found
get_workspace id m = with_conn m (or_not_found row_to_workspace (first (ws_is id) m.workspaces), m)

-- `LIMIT`, where one is given.
abbrev pub limit_to {ℓ} : {A : Type ℓ} → Option ℕ → List A → List A
limit_to none rs = rs
limit_to (some n) rs = take n rs

unfoldable pub status_matches : Option WorkspaceStatus → Workspace → Bool
status_matches none w = true
status_matches (some s) w = elim (WorkspaceStatus-discrete w.status s) [
  | yes _ ↦ true
  | no _ ↦ false
]

unfoldable pub list_workspaces :
    Option WorkspaceStatus → Option ℕ → MetaStore → Outcome (List Workspace)
unfolding status_matches select order_by row_to_workspace
list_workspaces status limit m = with_conn m (
  ok (
      map row_to_workspace (
        limit_to limit (
          order_by (λ a b. ltb (instant a.created_at) (instant b.created_at))
            (select (status_matches status) m.workspaces)))),
  m,
)

-- `UPDATE` and `DELETE` with a `rowcount` of 0 raise.
abbrev pub status_written :
    String → WorkspaceStatus → MetaStore → Result DateTime → Outcome (Unit {0})
status_written id status m (err e) = (err e, m)
status_written id status m (ok t) =
    if has (ws_is id) m.workspaces
    then (
      ok tt,
      record m {
        workspaces =
            update (ws_is id) (λ w. record w { status = status; updated_at = t }) m.workspaces;
      },
    )
    else (err not_found_error, m)

unfoldable pub update_workspace_status :
    String → WorkspaceStatus → DateTime → MetaStore → Outcome (Unit {0})
unfolding iso count_if update
update_workspace_status id status updated_at m =
    with_conn m (status_written id status m (iso updated_at))

-- `ON DELETE CASCADE`: the rows that refer to a workspace go with it.
unfoldable pub cascade : String → MetaStore → MetaStore
unfolding delete
cascade id m = record m {
  workspaces = delete (ws_is id) m.workspaces;
  executions = delete (ex_of id) m.executions;
  snapshots = delete (snap_of id) m.snapshots;
  artifacts = delete (art_of id) m.artifacts;
  scope_bindings = delete (scope_of id) m.scope_bindings;
}

unfoldable pub delete_workspace : String → MetaStore → Outcome (Unit {0})
unfolding cascade count_if
delete_workspace id m =
    with_conn m
      (if has (ws_is id) m.workspaces then (ok tt, cascade id m) else (err not_found_error, m))
