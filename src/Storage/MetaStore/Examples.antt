-- ===== src/Storage/MetaStore/Examples.antt =====
-- A store with one workspace, and the theorems about it.
use xforgebox.Base.{true, none, some, [], ◌∷◌, string_eq, option_eq}
use xforgebox.Models.{aware, Workspace, WorkspaceSpec, WorkspaceStatus, Execution, ExecutionStatus}
use xforgebox.Storage.MetaStore.{MetaStore, empty_store}
use xforgebox.Storage.MetaStore.Integrity.{
  IsConsistent, run_calls, run_calls-IsConsistent, creates_workspace, creates_execution,
  deletes_workspace,
}

abbrev python_spec : WorkspaceSpec
python_spec = record {
  image = "python:3.14-slim";
  runtime = "docker";
  working_dir = none;
  env = [];
  resources = record { cpu = none; memory = none; disk = none };
}

abbrev first_workspace : Workspace
first_workspace = record {
  id = "ws_1";
  spec = python_spec;
  status = WorkspaceStatus.ready;
  name = none;
  metadata = [];
  created_at = aware 1000;
  updated_at = aware 1000;
}

abbrev first_execution : Execution
first_execution = record {
  id = "ex_1";
  workspace_id = "ws_1";
  environment_id = none;
  command = "ls" ∷ [];
  shell = true;
  status = ExecutionStatus.queued;
  exit_code = none;
  truncated = true;
  output_path = none;
  started_at = none;
  finished_at = none;
  idempotency_key = some "k";
}

abbrev one_workspace : MetaStore
one_workspace = record empty_store {
  workspaces = first_workspace ∷ [];
  executions = first_execution ∷ [];
}

-- The second execution has the first one's key, and the third one's workspace is gone.
run_calls-IsConsistent_example : IsConsistent (
    run_calls
      (creates_workspace first_workspace
        ∷ creates_execution first_execution
        ∷ creates_execution (record first_execution { id = "ex_2" })
        ∷ deletes_workspace "ws_1"
        ∷ creates_execution first_execution
        ∷ [])
      empty_store)
run_calls-IsConsistent_example = run_calls-IsConsistent (
    creates_workspace first_workspace
    ∷ creates_execution first_execution
    ∷ creates_execution (record first_execution { id = "ex_2" })
    ∷ deletes_workspace "ws_1"
    ∷ creates_execution first_execution
    ∷ [])
