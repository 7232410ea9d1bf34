-- ===== src/Client/Sdk.antt =====
-- src/forge/client/sdk.py: the facade. A function takes the transport and, where the source has an
-- object for one workspace, the id of it. An argument left out is `none`, where the source tells it
-- apart from its default.
pub mod Uploads
use xforgebox.Base.{ℕ, String, Bool, Option, none, some, List, [], ◌∷◌}
use xforgebox.Errors.{Result, ok, err, value_error, index_error}
use xforgebox.Models.{
  ℤ, pos, Text, ResourceLimits, WorkspaceSpec, Workspace, ExecRequest, Execution, ExecutionResult,
  Snapshot, Artifact, PoolStats,
}
use xforgebox.Strings.Utf8.{Bytes}
use xforgebox.Services.World.{Over, next, ◌▷◌, returns, raises}
use xforgebox.Services.Files.Ops.{FileListEntry, UploadItem}
use xforgebox.Services.Files.Search.{GrepMatch}
use xforgebox.Server.State.{FileReadResult}
use xforgebox.Server.Routes.{or_else}
use xforgebox.Client.Transport.{ForgeTransport}

-- The module `base64`, which raises a `ValueError` for a text that it refuses.
pub record Base64 : Type 0 where
  pub encode : Bytes → Text
  pub decode : Text → Option Bytes

abbrev pub decoded : {S : Type 0} → Base64 → List UploadItem → Over S Bytes
decoded b64 [] = raises index_error
decoded b64 (item ∷ items) = elim (b64.decode item.content_b64) [
  | none ↦ raises value_error
  | some blob ↦ returns blob
]

module _ {S : Type 0} (t : ForgeTransport S) (id : String) where
  -- `_WorkspaceFiles`
  abbrev pub files_ls : Text → Over S (List FileListEntry)
  files_ls path = t.ls id path

  abbrev pub files_read : Text → Option ℤ → Option ℤ → Over S FileReadResult
  files_read path offset limit = t.read id path (or_else (pos 0) offset) limit

  abbrev pub files_write : Text → Text → Over S (Unit {0})
  files_write path content = t.write id path content

  abbrev pub files_edit : Text → Text → Text → Bool → Over S ℕ
  files_edit path old new all = t.edit id path old new all

  abbrev pub files_glob : Text → Over S (List Text)
  files_glob pattern = t.glob id pattern

  abbrev pub files_grep : Text → Option Text → Over S (List GrepMatch)
  files_grep pattern path_glob = t.grep id pattern path_glob

  abbrev pub files_delete : Text → Over S (Unit {0})
  files_delete path = t.delete_file id path

  abbrev pub files_upload : Base64 → Text → Bytes → Over S (Unit {0})
  files_upload b64 path content =
      t.upload_files id (record { path = path; content_b64 = b64.encode content } ∷ []) ▷ λ written.
      returns tt

  abbrev pub files_download : Base64 → Text → Over S Bytes
  files_download b64 path = t.download_files id (path ∷ []) ▷ decoded b64

  -- `_WorkspaceExecutions`, and `WorkspaceHandle.exec`, which calls it
  abbrev pub executions_run :
      List String
      → Bool
      → Option (List (String × String))
      → Option ℕ
      → Option ℕ
      → Option String
      → Over S ExecutionResult
  executions_run command shell env timeout_ms max_output_bytes idempotency_key = t.exec id record {
    command = command;
    shell = shell;
    env = or_else [] env;
    timeout_ms = timeout_ms;
    max_output_bytes = max_output_bytes;
    idempotency_key = idempotency_key;
  }

  abbrev pub executions_list : Over S (List Execution)
  executions_list = t.list_executions id

  -- `_WorkspaceSnapshots`
  abbrev pub snapshots_create : Option String → Over S Snapshot
  snapshots_create name = t.create_snapshot id name

  abbrev pub snapshots_list : Over S (List Snapshot)
  snapshots_list = t.list_snapshots id

  -- `_WorkspaceArtifacts`
  abbrev pub artifacts_export : Text → Option String → Over S Artifact
  artifacts_export path content_type = t.export_artifact id path content_type

  abbrev pub artifacts_read : String → Over S Text
  artifacts_read artifact_id = t.read_artifact artifact_id

  -- `WorkspaceHandle.delete`
  abbrev pub handle_delete : Over S (Unit {0})
  handle_delete = t.delete_workspace id

pub record WorkspaceHandle (S : Type 0) : Type 0 where
  pub transport : ForgeTransport S
  pub model : Workspace

abbrev no_limits : ResourceLimits
no_limits = record { cpu = none; memory = none; disk = none }

module _ {S : Type 0} (t : ForgeTransport S) where
  -- `_Workspaces`
  abbrev pub workspaces_create :
      Option String
      → Option String
      → Option (List (String × String))
      → Option ResourceLimits
      → Option String
      → Option (List (String × String))
      → Over S (WorkspaceHandle S)
  workspaces_create image working_dir env resources name metadata =
      t.create_workspace
        (record {
          image = or_else "python:3.14-slim" image;
          runtime = "docker";
          working_dir = working_dir;
          env = or_else [] env;
          resources = or_else no_limits resources;
        })
        name (or_else [] metadata)
      ▷ λ model. returns record { transport = t; model = model }

  abbrev pub workspaces_get : String → Over S (WorkspaceHandle S)
  workspaces_get id = t.get_workspace id ▷ λ model. returns record { transport = t; model = model }

  abbrev pub workspaces_list : Over S (List Workspace)
  workspaces_list = t.list_workspaces

  abbrev pub sdk_pool_status : Option String → Over S (List PoolStats)
  sdk_pool_status image = t.pool_status image
