-- ===== src/Models.antt =====
-- src/forge/models.py and the value objects of src/forge/drivers/base.py.
-- Times are natural numbers: milliseconds of the monotonic clock, or the `DateTime` below. A
-- float of seconds in the source (`lease_wait_timeout_seconds`) is its milliseconds here.
use xforgebox.Base.{ℕ, String, Bool, Option, List}

-- Python's `int` where it can be negative: `negsuc n` is -(n + 1).
pub data ℤ : Type 0 where
  pos : ℕ → ℤ
  negsuc : ℕ → ℤ

-- The text that a command prints or a file holds: its code points.
abbrev pub Text : Type 0
Text = List ℕ

-- A `datetime`, in microseconds: aware of its time zone, or naive.
pub data DateTime : Type 0 where
  aware naive : ℕ → DateTime

pub data WorkspaceStatus : Type 0 where
  creating ready deleting deleted failed : WorkspaceStatus

pub WorkspaceStatus-discrete : Discrete WorkspaceStatus
WorkspaceStatus-discrete = hlevel

pub data ExecutionStatus : Type 0 where
  queued running succeeded failed cancelled timed_out : ExecutionStatus

pub record ResourceLimits : Type 0 where
  pub cpu : Option ℕ
  pub memory : Option String
  pub disk : Option String

pub record WorkspaceSpec : Type 0 where
  pub image : String
  pub runtime : String
  pub working_dir : Option String
  pub env : List (String × String)
  pub resources : ResourceLimits

pub record Workspace : Type 0 where
  pub id : String
  pub spec : WorkspaceSpec
  pub status : WorkspaceStatus
  pub name : Option String
  pub metadata : List (String × String)
  pub created_at : DateTime
  pub updated_at : DateTime

pub record Execution : Type 0 where
  pub id : String
  pub workspace_id : String
  pub environment_id : Option String
  pub command : List String
  pub shell : Bool
  pub status : ExecutionStatus
  pub exit_code : Option ℤ
  pub truncated : Bool
  pub output_path : Option String
  pub started_at : Option DateTime
  pub finished_at : Option DateTime
  pub idempotency_key : Option String

pub record ExecutionResult : Type 0 where
  pub execution_id : String
  pub output : Text
  pub exit_code : ℤ
  pub truncated : Bool
  pub output_path : Option String
  pub duration_ms : ℤ

pub record Snapshot : Type 0 where
  pub id : String
  pub workspace_id : String
  pub name : Option String
  pub format : String
  pub size_bytes : ℕ
  pub parent_id : Option String
  pub created_at : DateTime

pub record Artifact : Type 0 where
  pub id : String
  pub workspace_id : String
  pub path : String
  pub size_bytes : ℕ
  pub content_type : Option String
  pub created_at : DateTime

pub record PoolConfig : Type 0 where
  pub image : String
  pub min_idle : ℕ
  pub max_size : ℕ
  pub idle_ttl_seconds : ℕ
  pub exec_timeout_seconds : ℕ
  pub max_output_bytes : ℕ
  pub lease_wait_timeout_ms : ℕ
  pub workspaces_mount : String

pub record PoolStats : Type 0 where
  pub image : String
  pub idle : ℕ
  pub in_use : ℕ
  pub total : ℕ
  pub max_size : ℕ
  pub min_idle : ℕ
  pub total_leases : ℕ
  pub total_lease_wait_ms : ℕ
  pub total_health_kills : ℕ

pub record ExecRequest : Type 0 where
  pub command : List String
  pub shell : Bool
  pub env : List (String × String)
  pub timeout_ms : Option ℕ
  pub max_output_bytes : Option ℕ
  pub idempotency_key : Option String

-- The payload of an event is not modelled: no code of the repository reads one.
pub record ForgeEvent : Type 0 where
  pub kind : String
  pub workspace_id : Option String
  pub execution_id : Option String

-- `EnvironmentHandle` of drivers/base.py.
pub record EnvironmentHandle : Type 0 where
  pub id : String
  pub image : String
  pub driver : String
  pub runtime_labels : List (String × String)
