-- ===== src/Server/Wire.antt =====
-- What goes over HTTP between src/forge/client/http_client.py and src/forge/server/routes. Pydantic
-- and the JSON of both sides are taken to give back what they were given: a body is the request or
-- response model that its JSON stands for, and the query is a record of the parameters present.
use xforgebox.Base.{ℕ, String, Option, none, List}
use xforgebox.Errors.{Result, ok, err, value_error, transport_error}
use xforgebox.Models.{
  ℤ, Text, Workspace, ExecRequest, Execution, ExecutionResult, Snapshot, Artifact, PoolStats,
}
use xforgebox.Services.Files.Ops.{FileListEntry, UploadItem}
use xforgebox.Services.Files.Search.{GrepMatch}
use xforgebox.Server.State.{
  CreateWorkspaceRequest, FileWriteRequest, FileEditRequest, FileReadResult, SnapshotCreateRequest,
  SnapshotRestoreRequest, ArtifactExportRequest,
}

pub data Method : Type 0 where
  get post put delete : Method

pub record Params : Type 0 where
  pub path : Option Text
  pub pattern : Option Text
  pub path_glob : Option Text
  pub image : Option String
  pub offset : Option ℤ
  pub limit : Option ℤ

abbrev pub no_params : Params
no_params = record {
  path = none;
  pattern = none;
  path_glob = none;
  image = none;
  offset = none;
  limit = none;
}

-- `download_one` is a JSON object, with its `path` if that is a string.
pub data Body : Type 0 where
  empty : Body
  create_workspace : CreateWorkspaceRequest → Body
  write : FileWriteRequest → Body
  edit : FileEditRequest → Body
  upload : List UploadItem → Body
  download : List Text → Body
  download_one : Option Text → Body
  exec : ExecRequest → Body
  create_snapshot : SnapshotCreateRequest → Body
  restore_snapshot : SnapshotRestoreRequest → Body
  export_artifact : ArtifactExportRequest → Body

-- A request; its path is the list of the segments that the slashes separate.
pub record HttpRequest : Type 0 where
  pub method : Method
  pub path : List String
  pub params : Params
  pub json : Body

-- The response models, `nothing` for a body that is not read. A body of bytes is `cut` where the
-- connection is closed before its end.
pub data Value : Type 0 where
  nothing : Value
  workspace : Workspace → Value
  workspaces : List Workspace → Value
  entries : List FileListEntry → Value
  page : FileReadResult → Value
  replacements : ℕ → Value
  paths : List Text → Value
  matches : List GrepMatch → Value
  written : List Text → Value
  items : List UploadItem → Value
  item : UploadItem → Value
  execution_result : ExecutionResult → Value
  execution : Execution → Value
  executions : List Execution → Value
  snapshot : Snapshot → Value
  snapshots : List Snapshot → Value
  artifact : Artifact → Value
  artifacts : List Artifact → Value
  bytes : Text → Value
  cut : Text → Value
  stats : List PoolStats → Value
  health : List PoolStats → Value

-- A response: its status, the `error` key of a JSON body that has one, and what a body without
-- that key holds.
pub record Reply : Type 0 where
  pub status : ℕ
  pub error : Option String
  pub content : Value

-- What the client takes from a body. Pydantic's `ValidationError` is a `ValueError`; the model of
-- another route stands for every body without the keys that are read. Of a body that is cut, httpx
-- raises a `RemoteProtocolError`.
abbrev pub as_workspace : Value → Result Workspace
as_workspace (Value.workspace x) = ok x
as_workspace _ = err value_error

abbrev pub as_workspaces : Value → Result (List Workspace)
as_workspaces (Value.workspaces x) = ok x
as_workspaces _ = err value_error

abbrev pub as_entries : Value → Result (List FileListEntry)
as_entries (Value.entries x) = ok x
as_entries _ = err value_error

abbrev pub as_page : Value → Result FileReadResult
as_page (Value.page x) = ok x
as_page _ = err value_error

abbrev pub as_replacements : Value → Result ℕ
as_replacements (Value.replacements x) = ok x
as_replacements _ = err value_error

abbrev pub as_paths : Value → Result (List Text)
as_paths (Value.paths x) = ok x
as_paths _ = err value_error

abbrev pub as_matches : Value → Result (List GrepMatch)
as_matches (Value.matches x) = ok x
as_matches _ = err value_error

abbrev pub as_written : Value → Result (List Text)
as_written (Value.written x) = ok x
as_written _ = err value_error

abbrev pub as_items : Value → Result (List UploadItem)
as_items (Value.items x) = ok x
as_items _ = err value_error

abbrev pub as_execution_result : Value → Result ExecutionResult
as_execution_result (Value.execution_result x) = ok x
as_execution_result _ = err value_error

abbrev pub as_execution : Value → Result Execution
as_execution (Value.execution x) = ok x
as_execution _ = err value_error

abbrev pub as_executions : Value → Result (List Execution)
as_executions (Value.executions x) = ok x
as_executions _ = err value_error

abbrev pub as_snapshot : Value → Result Snapshot
as_snapshot (Value.snapshot x) = ok x
as_snapshot _ = err value_error

abbrev pub as_snapshots : Value → Result (List Snapshot)
as_snapshots (Value.snapshots x) = ok x
as_snapshots _ = err value_error

abbrev pub as_artifact : Value → Result Artifact
as_artifact (Value.artifact x) = ok x
as_artifact _ = err value_error

abbrev pub as_stats : Value → Result (List PoolStats)
as_stats (Value.stats x) = ok x
as_stats _ = err value_error

abbrev pub as_bytes : Value → Result Text
as_bytes (Value.bytes x) = ok x
as_bytes (Value.cut x) = err transport_error
as_bytes _ = err value_error
