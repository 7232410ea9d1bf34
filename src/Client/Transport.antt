-- ===== src/Client/Transport.antt =====
-- `ForgeTransport` of src/forge/client/sdk.py: what a client of either kind offers, and its calls
-- as data. The stream that `read_artifact` yields is read to its end and joined, and an exception
-- that comes with the first chunk is that of the call. `subscribe` is in Client/Streams.antt.
use xforgebox.Base.{ℕ, String, Bool, Option, List}
use xforgebox.Models.{
  ℤ, Text, WorkspaceSpec, Workspace, ExecRequest, Execution, ExecutionResult, Snapshot, Artifact,
  PoolStats,
}
use xforgebox.Services.World.{Over, ◌▷◌, returns}
use xforgebox.Services.Files.Ops.{FileListEntry, UploadItem}
use xforgebox.Services.Files.Search.{GrepMatch}
use xforgebox.Server.State.{FileReadResult}
use xforgebox.Server.Wire.{Value}

pub record ForgeTransport (S : Type 0) : Type 0 where
  pub create_workspace : WorkspaceSpec → Option String → List (String × String) → Over S Workspace
  pub get_workspace : String → Over S Workspace
  pub list_workspaces : Over S (List Workspace)
  pub delete_workspace : String → Over S (Unit {0})
  pub ls : String → Text → Over S (List FileListEntry)
  pub read : String → Text → ℤ → Option ℤ → Over S FileReadResult
  pub write : String → Text → Text → Over S (Unit {0})
  pub edit : String → Text → Text → Text → Bool → Over S ℕ
  pub glob : String → Text → Over S (List Text)
  pub grep : String → Text → Option Text → Over S (List GrepMatch)
  pub delete_file : String → Text → Over S (Unit {0})
  pub upload_files : String → List UploadItem → Over S (List Text)
  pub download_files : String → List Text → Over S (List UploadItem)
  pub exec : String → ExecRequest → Over S ExecutionResult
  pub list_executions : String → Over S (List Execution)
  pub get_execution : String → String → Over S Execution
  pub create_snapshot : String → Option String → Over S Snapshot
  pub list_snapshots : String → Over S (List Snapshot)
  pub restore_snapshot : String → Option String → List (String × String) → Over S Workspace
  pub export_artifact : String → Text → Option String → Over S Artifact
  pub read_artifact : String → Over S Text
  pub pool_status : Option String → Over S (List PoolStats)

pub data Request : Type 0 where
  create_workspace : WorkspaceSpec → Option String → List (String × String) → Request
  get_workspace delete_workspace : String → Request
  list_workspaces : Request
  ls delete_file : String → Text → Request
  read : String → Text → ℤ → Option ℤ → Request
  write : String → Text → Text → Request
  edit : String → Text → Text → Text → Bool → Request
  glob : String → Text → Request
  grep : String → Text → Option Text → Request
  upload_files : String → List UploadItem → Request
  download_files : String → List Text → Request
  exec : String → ExecRequest → Request
  list_executions list_snapshots read_artifact : String → Request
  get_execution : String → String → Request
  create_snapshot : String → Option String → Request
  restore_snapshot : String → Option String → List (String × String) → Request
  export_artifact : String → Text → Option String → Request
  pool_status : Option String → Request

abbrev pub wrapped : {S A : Type 0} → (A → Value) → Over S A → Over S Value
wrapped wrap call = call ▷ λ a. returns (wrap a)

abbrev pub done : Unit {0} → Value
done u = Value.nothing

module _ {S : Type 0} (t : ForgeTransport S) where
  abbrev pub call : Request → Over S Value
  call (Request.create_workspace spec name metadata) =
      wrapped Value.workspace (t.create_workspace spec name metadata)
  call (Request.get_workspace id) = wrapped Value.workspace (t.get_workspace id)
  call Request.list_workspaces = wrapped Value.workspaces (t.list_workspaces)
  call (Request.delete_workspace id) = wrapped done (t.delete_workspace id)
  call (Request.ls ws path) = wrapped Value.entries (t.ls ws path)
  call (Request.read ws path offset limit) = wrapped Value.page (t.read ws path offset limit)
  call (Request.write ws path content) = wrapped done (t.write ws path content)
  call (Request.edit ws path old new all) = wrapped Value.replacements (t.edit ws path old new all)
  call (Request.glob ws pattern) = wrapped Value.paths (t.glob ws pattern)
  call (Request.grep ws pattern path_glob) = wrapped Value.matches (t.grep ws pattern path_glob)
  call (Request.delete_file ws path) = wrapped done (t.delete_file ws path)
  call (Request.upload_files ws items) = wrapped Value.written (t.upload_files ws items)
  call (Request.download_files ws paths) = wrapped Value.items (t.download_files ws paths)
  call (Request.exec ws req) = wrapped Value.execution_result (t.exec ws req)
  call (Request.list_executions ws) = wrapped Value.executions (t.list_executions ws)
  call (Request.get_execution ws id) = wrapped Value.execution (t.get_execution ws id)
  call (Request.create_snapshot ws name) = wrapped Value.snapshot (t.create_snapshot ws name)
  call (Request.list_snapshots ws) = wrapped Value.snapshots (t.list_snapshots ws)
  call (Request.restore_snapshot id name metadata) =
      wrapped Value.workspace (t.restore_snapshot id name metadata)
  call (Request.export_artifact ws path content_type) =
      wrapped Value.artifact (t.export_artifact ws path content_type)
  call (Request.read_artifact id) = wrapped Value.bytes (t.read_artifact id)
  call (Request.pool_status image) = wrapped Value.stats (t.pool_status image)
