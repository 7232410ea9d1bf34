-- ===== src/Services/Executions/Exec.antt =====
-- `ExecutionService.exec` of src/forge/services/execution_service.py, with `get` and `list`.
use xforgebox.Base.{
  String, Bool, false, Option, none, some, List, [], ◌∷◌, if◌then◌else◌, ◌==◌, string_eq,
}
use xforgebox.Errors.{Result, ok, err, Exception, cancelled_error}
use xforgebox.Models.{
  aware, Workspace, Execution, ExecutionStatus, ExecutionResult, ExecRequest, ForgeEvent, pos,
}
use xforgebox.Storage.MetaStore.{get_workspace}
use xforgebox.Storage.MetaStore.Executions.{
  Field, Stamp, create_execution, update_execution, get_execution, get_execution_by_idempotency,
  list_executions,
}
use xforgebox.Services.World.{World, Action, ◌▷◌, returns, raises, on_meta, publishes}
use xforgebox.Services.Executions.{
  SessionCall, Session, Host, prepare_command, classify_status, is_terminal, spill_overflow,
  result_from_terminal_execution,
}

unfoldable pub queued_row : Host → String → ExecRequest → Execution
queued_row host ws req = record {
  id = host.exec_id;
  workspace_id = ws;
  environment_id = none;
  command = req.command;
  shell = req.shell;
  status = ExecutionStatus.queued;
  exit_code = none;
  truncated = false;
  output_path = none;
  started_at = none;
  finished_at = none;
  idempotency_key = req.idempotency_key;
}

-- `_publish`, without the payload.
abbrev pub event_of : String → Host → String → ForgeEvent
event_of kind host ws = record {
  kind = kind;
  workspace_id = some ws;
  execution_id = some host.exec_id;
}

-- An execution that has ended, for a key that is neither `None` nor empty.
abbrev pub if_terminal : Option Execution → Option Execution
if_terminal none = none
if_terminal (some ex) = if is_terminal ex.status then some ex else none

unfoldable pub earlier : String → ExecRequest → Action (Option Execution)
unfolding is_terminal get_execution_by_idempotency string_eq
earlier ws req = elim req.idempotency_key [
  | none ↦ returns none
  | some key ↦
      if key == ""
      then returns none
      else (on_meta (get_execution_by_idempotency ws key) ▷ λ found. returns (if_terminal found))
]

abbrev pub start_fields : Host → List Field
start_fields host =
    Field.status ExecutionStatus.running
    ∷ Field.started_at (Stamp.text (aware host.started_at))
    ∷ []

abbrev pub failed_fields : Host → List Field
failed_fields host =
    Field.status ExecutionStatus.failed
    ∷ Field.exit_code none
    ∷ Field.finished_at (Stamp.text (aware host.finished_at))
    ∷ []

abbrev pub final_fields : Host → ExecutionResult → Option String → List Field
final_fields host r out =
    Field.status (classify_status r.exit_code)
    ∷ Field.exit_code (some r.exit_code)
    ∷ Field.truncated r.truncated
    ∷ Field.output_path out
    ∷ Field.finished_at (Stamp.text (aware host.finished_at))
    ∷ []

-- The row is inserted and marked as running.
unfoldable pub begin : Host → String → ExecRequest → Action (Unit {0})
unfolding queued_row create_execution update_execution
begin host ws req =
    on_meta (create_execution (queued_row host ws req))
    ▷ (λ _. publishes (event_of "execution.queued" host ws))
    ▷ (λ _. on_meta (update_execution host.exec_id (start_fields host)))
    ▷ (λ _. publishes (event_of "execution.started" host ws))

abbrev pub session_call : Workspace → String → ExecRequest → List String → SessionCall
session_call ws id req cmd = record {
  workspace_id = id;
  image = ws.spec.image;
  command = cmd;
  env = req.env;
  timeout_ms = req.timeout_ms;
  max_output_bytes = req.max_output_bytes;
}

-- `except Exception`: a cancellation is no `Exception` and passes it by.
unfoldable pub infra_failure : Host → String → Exception → Action ExecutionResult
unfolding update_execution
infra_failure host ws cancelled_error = raises cancelled_error
infra_failure host ws e =
    on_meta (update_execution host.exec_id (failed_fields host))
    ▷ (λ _. publishes (event_of "execution.finished" host ws))
    ▷ (λ _. raises e)

abbrev pub spill : Host → String → ExecutionResult → Action (Option String)
spill host ws r =
    if r.truncated
    then (spill_overflow host.write ws host.exec_id r.output ▷ λ p. returns (some p))
    else returns none

unfoldable pub complete : Host → String → ExecutionResult → Action ExecutionResult
unfolding spill_overflow classify_status update_execution
complete host ws r = spill host ws r ▷ λ out.
    on_meta (update_execution host.exec_id (final_fields host r out))
    ▷ (λ _. publishes (event_of "execution.finished" host ws))
    ▷ (λ _. returns (record r {
      execution_id = host.exec_id;
      output_path = out;
      duration_ms = pos host.elapsed_ms;
    }))

abbrev pub conclude :
    Host → String → Result ExecutionResult × World → Result ExecutionResult × World
conclude host ws (ok r, w) = complete host ws r w
conclude host ws (err e, w) = infra_failure host ws e w

unfoldable pub run : Session → Host → Workspace → String → ExecRequest → Action ExecutionResult
unfolding begin prepare_command complete infra_failure
run session host ws id req = begin host id req ▷ λ _ w. elim (prepare_command req) [
  | err e ↦ raises e w
  | ok cmd ↦ conclude host id (session (session_call ws id req cmd) w)
]

unfoldable pub exec : Session → Host → String → ExecRequest → Action ExecutionResult
unfolding get_workspace earlier run result_from_terminal_execution
exec session host id req = on_meta (get_workspace id) ▷ λ ws. earlier id req ▷ λ hit. elim hit [
  | some ex ↦ result_from_terminal_execution host id ex
  | none ↦ run session host ws id req
]

unfoldable pub get : String → Action Execution
unfolding get_execution
get id = on_meta (get_execution id)

unfoldable pub list : (String → String → Bool) → String → Action (List Execution)
unfolding list_executions
list before ws = on_meta (list_executions before ws)
