-- ===== src/Server/State.antt =====
-- What the HTTP routes and the in-process client call: `ForgeState` of src/forge/server/deps.py, as
-- interfaces of the services over a state `S` that they share, and the request and result models of
-- src/forge/models.py that only they use.
use xforgebox.Base.{ℕ, String, Bool, Option, List}
use xforgebox.Models.{
  ℤ, Text, WorkspaceSpec, Workspace, ExecRequest, Execution, ExecutionResult, Snapshot, Artifact,
  PoolStats,
}
use xforgebox.Services.World.{Over}
use xforgebox.Storage.ArtifactStore.{ByteStream}
use xforgebox.Services.Files.Ops.{FileListEntry, UploadItem}
use xforgebox.Services.Files.Search.{GrepMatch}

pub record WorkspaceService (S : Type 0) : Type 0 where
  pub create : WorkspaceSpec → Option String → List (String × String) → Over S Workspace
  pub get : String → Over S Workspace
  pub list : Over S (List Workspace)
  pub delete : String → Over S (Unit {0})

pub record FilesService (S : Type 0) : Type 0 where
  pub ls : String → Text → Over S (List FileListEntry)
  pub read : String → Text → ℤ → ℤ → Over S (Text × ℕ × Bool)
  pub write : String → Text → Text → Over S (Unit {0})
  pub edit : String → Text → Text → Text → Bool → Over S ℕ
  pub glob : String → Text → Over S (List Text)
  pub grep : String → Text → Option Text → Over S (List GrepMatch)
  pub delete : String → Text → Over S (Unit {0})
  pub upload_files : String → List UploadItem → Over S (List Text)
  pub download_files : String → List Text → Over S (List UploadItem)

pub record ExecutionService (S : Type 0) : Type 0 where
  pub exec : String → ExecRequest → Over S ExecutionResult
  pub list : String → Over S (List Execution)
  pub get : String → Over S Execution

pub record SnapshotService (S : Type 0) : Type 0 where
  pub create : String → Option String → Over S Snapshot
  pub list : String → Over S (List Snapshot)
  pub get : String → Over S Snapshot
  pub restore : String → Option String → List (String × String) → Over S Workspace

-- `read` looks the artifact up and returns a stream, which nothing has been read of yet.
pub record ArtifactService (S : Type 0) : Type 0 where
  pub export : String → Text → Option String → Over S Artifact
  pub list : String → Over S (List Artifact)
  pub get : String → Over S Artifact
  pub read : String → Over S ByteStream

pub record ForgeState (S : Type 0) : Type 0 where
  pub workspaces : WorkspaceService S
  pub files : FilesService S
  pub executions : ExecutionService S
  pub snapshots : SnapshotService S
  pub artifacts : ArtifactService S
  pub pool_stats : Option String → Over S (List PoolStats)

pub record CreateWorkspaceRequest : Type 0 where
  pub spec : WorkspaceSpec
  pub name : Option String
  pub metadata : List (String × String)

pub record FileWriteRequest : Type 0 where
  pub path : Text
  pub content : Text

pub record FileEditRequest : Type 0 where
  pub path : Text
  pub old_string : Text
  pub new_string : Text
  pub replace_all : Bool

pub record FileReadResult : Type 0 where
  pub path : Text
  pub content : Text
  pub offset : ℤ
  pub limit : Option ℤ
  pub total_lines : ℕ
  pub truncated : Bool

pub record SnapshotCreateRequest : Type 0 where
  pub name : Option String

pub record SnapshotRestoreRequest : Type 0 where
  pub name : Option String
  pub metadata : List (String × String)

pub record ArtifactExportRequest : Type 0 where
  pub path : Text
  pub content_type : Option String
