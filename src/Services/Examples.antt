-- ===== src/Services/Examples.antt =====
-- One workspace, a session that prints and one that fails, and the theorems about them.
use xforgebox.Base.{
  nat_eq, ◌≡◌, refl, String, true, false, none, some, List, [], ◌∷◌, arith, string_eq, option_eq,
  contains,
}
use xforgebox.Errors.{
  ok, err, runtime_driver_error, cancelled_error, integrity_error, not_found_error,
}
use xforgebox.Models.{
  aware, pos, Workspace, Execution, WorkspaceSpec, WorkspaceStatus, ExecutionStatus,
  ExecutionResult, ExecRequest,
}
use xforgebox.Storage.Rows.{count_if, first}
use xforgebox.Storage.ArtifactStore.{ByteStream, copied, consumed}
use xforgebox.Services.Artifacts as Artifacts
use xforgebox.Services.Artifacts.{Shelf, is_reserved}
use xforgebox.Services.Artifacts.RoundTrip.{CanExport, exported, with_export, read-export}
use xforgebox.Storage.MetaStore.{empty_store, get_workspace}
use xforgebox.Storage.MetaStore.Executions.{get_execution, get_execution_by_idempotency}
use xforgebox.Storage.WorkspaceStore.{File, Syscalls, removed, path}
use xforgebox.Services.World.{World, completes}
use xforgebox.Services.Workspaces.{new_workspace, create, delete}
use xforgebox.Services.Workspaces.Sync.{AllOrNothing, create-AllOrNothing, delete_leaves_nothing}
use xforgebox.Services.Executions.{Session, Host, whole, prepare_command}
use xforgebox.Services.Executions.Exec.{exec, queued_row}
use xforgebox.Services.Executions.Steps.{
  IsNew, CanSpill, began, running_row, ended, final_row, failed_row, out_path, spilled,
}
use xforgebox.Services.Executions.Outcome.{Starts, exec_succeeds, exec_fails, EndsAs, exec_status}
use xforgebox.Services.Executions.Retry.{replay, exec_then_retry}
use xforgebox.Services.Executions.Blocked.{cancelled_key_blocked}
use xforgebox.Models.{Snapshot}
use xforgebox.Storage.SnapshotStore.{snapshot_of}

abbrev python_spec : WorkspaceSpec
python_spec = record {
  image = "python:3.14-slim";
  runtime = "docker";
  working_dir = none;
  env = [];
  resources = record { cpu = none; memory = none; disk = none };
}

abbrev calls : Syscalls
calls = record { mkdir = true; mkdir_meta = true; rmtree = removed }

abbrev empty_world : World
empty_world = record {
  meta = empty_store;
  disk = record { dirs = []; files = [] };
  bus = record { subs = []; queue_size = 256 };
}

create-AllOrNothing_example :
    AllOrNothing "ws_1"
      (new_workspace "ws_1" 1000 python_spec none [])
      empty_world
      (create calls completes "ws_1" 1000 python_spec none [] empty_world)
create-AllOrNothing_example =
    create-AllOrNothing calls "ws_1" 1000 python_spec none [] empty_world refl refl

abbrev ws : Workspace
ws = record {
  id = "ws_1";
  spec = python_spec;
  status = WorkspaceStatus.ready;
  name = none;
  metadata = [];
  created_at = aware 1000;
  updated_at = aware 1000;
}

abbrev world : World
world = record empty_world {
  meta = record empty_store { workspaces = ws ∷ [] };
  disk = record { dirs = "ws_1" ∷ []; files = [] };
}

delete_leaves_nothing_example :
    let after = (delete calls 2000 "ws_1" world).1 in
    (contains after.disk.dirs "ws_1" ≡ false)
    × ((get_workspace "ws_1" after.meta).0 ≡ err not_found_error)
unfolding delete string_eq
delete_leaves_nothing_example = delete_leaves_nothing calls 2000 "ws_1" world refl

abbrev host : Host
host = record {
  exec_id = "ex_1";
  started_at = 5000000;
  finished_at = 6000000;
  elapsed_ms = 1000;
  write = whole;
  readable = true;
  float_ms = λ n. n;
}

abbrev request : ExecRequest
request = record {
  command = "echo" ∷ "hi" ∷ [];
  shell = true;
  env = [];
  timeout_ms = none;
  max_output_bytes = none;
  idempotency_key = some "k";
}

-- The driver's result, cut: "hi", a carriage return and a line feed.
abbrev printed : ExecutionResult
printed = record {
  execution_id = "";
  output = 104 ∷ 105 ∷ 13 ∷ 10 ∷ [];
  exit_code = pos 0;
  truncated = true;
  output_path = none;
  duration_ms = pos 3;
}

abbrev prints : Session
prints = λ _ w. (ok printed, w)

abbrev breaks : Session
breaks = λ _ w. (err runtime_driver_error, w)

abbrev is_cancelled : Session
is_cancelled = λ _ w. (err cancelled_error, w)

abbrev command : List String
command = "sh" ∷ "-c" ∷ "echo hi" ∷ []

world-IsNew : IsNew host "ws_1" request world.meta
unfolding count_if queued_row string_eq
world-IsNew = record { up = refl; owner = refl; fresh = refl; key_free = refl }

abbrev running : World
running = began host "ws_1" request world

starts : (s : Session) → Starts s host "ws_1" request world running ws command
unfolding get_workspace prepare_command string_eq
starts s = record { new = world-IsNew; found = refl; command = refl }

can_spill : CanSpill host "ws_1" printed
unfolding CanSpill path string_eq
can_spill _ = (refl, refl)

exec_succeeds_example : exec prints host "ws_1" request world ≡ (
  ok (record printed {
    execution_id = "ex_1";
    output_path = out_path host printed;
    duration_ms = pos 1000;
  }),
  ended host "ws_1"
      (final_row host "ws_1" request printed)
      world
      (record running { disk = spilled host "ws_1" printed running.disk }),
)
exec_succeeds_example =
    exec_succeeds prints host "ws_1" request world running ws command printed (starts prints)
      (refl, refl) can_spill

exec_status_example :
    let after = (exec prints host "ws_1" request world).1 in
    (x : Execution) × ((get_execution "ex_1" after.meta).0 ≡ ok x)
    × (x.exit_code ≡ some (pos 0))
    × EndsAs x.status (pos 0)
exec_status_example =
    exec_status prints host "ws_1" request world running ws command printed (starts prints)
      (refl, refl) can_spill

exec_fails_example :
    exec breaks host "ws_1" request world
    ≡ (err runtime_driver_error, ended host "ws_1" (failed_row host "ws_1" request) world running)
exec_fails_example =
    exec_fails breaks host "ws_1" request world running ws command runtime_driver_error
      (λ h. ground arith) (starts breaks) (refl, refl)

exec_then_retry_example :
    let after = (exec prints host "ws_1" request world).1 in
    exec breaks (record host { exec_id = "ex_2" }) "ws_1" request after
    ≡ (ok (replay host (record host { exec_id = "ex_2" }) printed), after)
unfolding string_eq
exec_then_retry_example =
    exec_then_retry prints breaks host (record host { exec_id = "ex_2" }) "ws_1" "k" request request
      world running ws command printed (starts prints) (refl, refl) can_spill refl refl refl refl

cancelled_key_blocked_example :
    let after = (exec is_cancelled host "ws_1" request world).1 in
    (get_execution_by_idempotency "ws_1" "k" after.meta
      ≡ (ok (some (running_row host "ws_1" request)), after.meta))
    × ((running_row host "ws_1" request).status ≡ ExecutionStatus.running)
    × (exec prints (record host { exec_id = "ex_2" }) "ws_1" request after
        ≡ (err integrity_error, after))
cancelled_key_blocked_example =
    cancelled_key_blocked is_cancelled prints host (record host { exec_id = "ex_2" }) "ws_1" "k"
      request request world running ws command (starts is_cancelled) (refl, refl) refl refl

abbrev notes : File
notes = record { workspace = "ws_1"; path = "notes.txt"; contents = 1 ∷ 2 ∷ 3 ∷ [] }

abbrev shelf : Shelf
shelf = record {
  world = record world { disk = record { dirs = "ws_1" ∷ []; files = notes ∷ [] } };
  exports = [];
}

shelf-CanExport : CanExport "art_1" "ws_1" "notes.txt" notes shelf
unfolding count_if first get_workspace path is_reserved string_eq nat_eq
shelf-CanExport = record {
  up = refl;
  owner = refl;
  row = ws;
  found = refl;
  valid = refl;
  open_to_all = refl;
  stored = refl;
  fresh = refl;
}

read-export_example :
    let after = with_export (λ p. p) "art_1" 4000 "ws_1" "notes.txt" none notes shelf in
    (Artifacts.export copied "art_1" 4000 "ws_1" (some "notes.txt") "notes.txt" none shelf
      ≡ (ok (exported (λ p. p) "art_1" 4000 "ws_1" "notes.txt" none notes shelf), after))
    × ((stream : ByteStream) × (Artifacts.read (λ p. p) 2 "art_1" after ≡ (ok stream, after))
        × (consumed stream ≡ ok (1 ∷ 2 ∷ 3 ∷ [])))
read-export_example =
    read-export (λ p. p) "art_1" 4000 "ws_1" "notes.txt" none notes shelf 1 shelf-CanExport

-- The workspace has no row, so that the row of the snapshot is refused.
abbrev orphan : Snapshot
orphan = snapshot_of "snap_1" "ws_1" 3000 none 42
