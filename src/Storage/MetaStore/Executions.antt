-- ===== src/Storage/MetaStore/Executions.antt =====
-- The `executions` table of src/forge/storage/meta_store.py.
use xforgebox.Base.{
  String, Bool, true, false, not, ◌||◌, Option, none, some, List, [], ◌∷◌, ◌++◌, map, if◌then◌else◌,
  string_eq, option_eq,
}
use xforgebox.Errors.{Result, ok, err, ◌>>=◌, config_error, not_found_error}
use xforgebox.Models.{DateTime, ℤ, Execution, ExecutionStatus}
use xforgebox.Storage.Rows.{count_if, has, first, update, select, order_by}
use xforgebox.Storage.MetaStore.{
  MetaStore, Outcome, iso, iso_opt, row_to_execution, or_not_found, ex_is, ex_of, ex_key, ws_is,
  insert_row, with_conn,
}

-- The row of an execution, with its dates as `_iso` passes them.
unfoldable pub execution_row : Execution → Result Execution
unfolding iso_opt
execution_row ex = iso_opt ex.started_at >>= λ s.
    iso_opt ex.finished_at >>= λ f. ok (record ex { started_at = s; finished_at = f })

-- `idx_executions_idem`: one row for each workspace and key, where the key is not null.
abbrev pub key_taken : Execution → MetaStore → Bool
key_taken ex m = elim ex.idempotency_key [
  | none ↦ false
  | some k ↦ has (ex_key ex.workspace_id k) m.executions
]

unfoldable pub create_execution : Execution → MetaStore → Outcome (Unit {0})
unfolding execution_row count_if
create_execution ex m =
    insert_row m
      (has (ex_is ex.id) m.executions
        || not (has (ws_is ex.workspace_id) m.workspaces)
        || key_taken ex m)
      (λ row. record m { executions = m.executions ++ row ∷ [] }) (execution_row ex)

unfoldable pub get_execution : String → MetaStore → Outcome Execution
unfolding first row_to_execution or_not_found
get_execution id m = with_conn m (or_not_found row_to_execution (first (ex_is id) m.executions), m)

unfoldable pub get_execution_by_idempotency :
    String → String → MetaStore → Outcome (Option Execution)
unfolding first row_to_execution
get_execution_by_idempotency ws key m = with_conn m (
  ok (elim (first (ex_key ws key) m.executions) [
    | none ↦ none
    | some r ↦ some (row_to_execution r)
  ]),
  m,
)

-- A keyword argument of `update_execution`; a date is an object, a text that is ISO already, or
-- `None`, and `unknown` is any keyword that is no writable column.
pub data Stamp : Type 0 where
  object : DateTime → Stamp
  text : DateTime → Stamp
  null : Stamp

pub data Field : Type 0 where
  environment_id : Option String → Field
  status : ExecutionStatus → Field
  exit_code : Option ℤ → Field
  truncated : Bool → Field
  output_path : Option String → Field
  started_at : Stamp → Field
  finished_at : Stamp → Field
  unknown : String → Field

abbrev is_unknown : Field → Bool
is_unknown (unknown k) = true
is_unknown _ = false

unfoldable pub any_unknown : List Field → Bool
any_unknown [] = false
any_unknown (f ∷ fs) = is_unknown f || any_unknown fs

unfoldable pub stamp : Stamp → Result (Option DateTime)
unfolding iso
stamp (object d) = iso d >>= λ t. ok (some t)
stamp (text d) = ok (some d)
stamp null = ok none

-- The columns that one argument sets, and all of them in turn.
unfoldable pub setter : Field → Result (Execution → Execution)
unfolding stamp
setter (environment_id v) = ok λ r. record r { environment_id = v }
setter (status v) = ok λ r. record r { status = v }
setter (exit_code v) = ok λ r. record r { exit_code = v }
setter (truncated v) = ok λ r. record r { truncated = v }
setter (output_path v) = ok λ r. record r { output_path = v }
setter (started_at v) = stamp v >>= λ t. ok λ r. record r { started_at = t }
setter (finished_at v) = stamp v >>= λ t. ok λ r. record r { finished_at = t }
setter (unknown k) = ok λ r. r

unfoldable pub setters : List Field → Result (Execution → Execution)
unfolding setter
setters [] = ok λ r. r
setters (f ∷ fs) = setter f >>= λ g. setters fs >>= λ h. ok λ r. h (g r)

-- The `UPDATE` with columns that may fail to be built; a `rowcount` of 0 raises.
abbrev pub written : String → MetaStore → Result (Execution → Execution) → Outcome (Unit {0})
written id m (err e) = (err e, m)
written id m (ok set) = with_conn m (
    if has (ex_is id) m.executions
    then (ok tt, record m { executions = update (ex_is id) set m.executions })
    else (err not_found_error, m))

-- `update_execution`: no arguments do nothing; the arguments are read before the connection.
unfoldable pub update_execution : String → List Field → MetaStore → Outcome (Unit {0})
unfolding any_unknown setters count_if update
update_execution id [] m = (ok tt, m)
update_execution id (f ∷ fs) m =
    if any_unknown (f ∷ fs) then (err config_error, m) else written id m (setters (f ∷ fs))

-- `list_executions`, ordered by id: the ids are compared as texts, which `before` does.
unfoldable pub list_executions :
    (String → String → Bool) → String → MetaStore → Outcome (List Execution)
unfolding select order_by row_to_execution
list_executions before ws m = with_conn m (
  ok (map row_to_execution (order_by (λ a b. before a.id b.id) (select (ex_of ws) m.executions))),
  m,
)
