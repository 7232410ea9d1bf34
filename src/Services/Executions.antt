-- ===== src/Services/Executions.antt =====
-- src/forge/services/execution_service.py. The id that `uuid4` yields and the readings of the
-- clocks are arguments, and so is the pool's session: it takes the command to the driver, returns
-- its result or raises, and may change the world in the meantime.
pub mod Exec
pub mod Steps
pub mod Outcome
pub mod Retry
pub mod Blocked
use xforgebox.Base.{
  ℕ, zero, suc, ◌-◌, ◌*◌, ◌/◌, String, ◌<>◌, Bool, true, false, not, ◌&&◌, ◌||◌, Option, none, some,
  List, [], ◌∷◌, if◌then◌else◌, ◌==◌, string_eq, nat_eq, leb,
}
use xforgebox.Errors.{
  Result, ok, err, Exception, value_error, os_error, workspace_error, cancelled_error,
}
use xforgebox.Models.{
  Text, ℤ, pos, negsuc, DateTime, aware, naive, Workspace, Execution, ExecutionStatus,
  ExecutionResult, ExecRequest, ForgeEvent,
}
use xforgebox.Storage.MetaStore.{get_workspace, instant}
use xforgebox.Storage.MetaStore.Executions.{
  Field, Stamp, create_execution, update_execution, get_execution, get_execution_by_idempotency,
  list_executions,
}
use xforgebox.Storage.WorkspaceStore.{Disk, File, path, valid_workspace_id}
use xforgebox.Storage.Rows.{first, update, has}
use xforgebox.Services.World.{
  World, Action, next, ◌▷◌, returns, raises, on_meta, on_disk, publishes,
}

-- `async with self._pool.session(...) as sess: await sess.exec(...)`
pub record SessionCall : Type 0 where
  pub workspace_id : String
  pub image : String
  pub command : List String
  pub env : List (String × String)
  pub timeout_ms : Option ℕ
  pub max_output_bytes : Option ℕ

abbrev pub Session : Type 0
Session = SessionCall → Action ExecutionResult

-- What `write_text` does: the text is written, or an `OSError` leaves the file as it was or cut.
pub data Write : Type 0 where
  whole : Write
  refused : Write
  cut : Text → Write

abbrev pub join : List String → String
join [] = ""
join (t ∷ []) = t
join (t ∷ u ∷ ts) = t <> " " <> join (u ∷ ts)

-- `_prepare_command`
unfoldable pub prepare_command : ExecRequest → Result (List String)
prepare_command req = elim req.command [
  | [] ↦ err value_error
  | t ∷ ts ↦ ok (if req.shell then "sh" ∷ "-c" ∷ join (t ∷ ts) ∷ [] else t ∷ ts)
]

-- `_classify_status`
unfoldable pub classify_status : ℤ → ExecutionStatus
unfolding nat_eq
classify_status (pos n) =
    if n == 0
    then ExecutionStatus.succeeded
    else if n == 124
    then ExecutionStatus.timed_out
    else ExecutionStatus.failed
classify_status (negsuc n) = ExecutionStatus.failed

unfoldable pub is_terminal : ExecutionStatus → Bool
is_terminal ExecutionStatus.queued = false
is_terminal ExecutionStatus.running = false
is_terminal _ = true

-- The files of the workspaces: `write_text` replaces or adds one, `read_text` makes each end of a
-- line a line feed.
abbrev pub file_is : String → String → File → Bool
file_is ws p f = f.workspace == ws && f.path == p

unfoldable pub put_file : String → String → Text → List File → List File
unfolding string_eq
put_file ws p text [] = record { workspace = ws; path = p; contents = text } ∷ []
put_file ws p text (f ∷ fs) =
    if file_is ws p f then record f { contents = text } ∷ fs else f ∷ put_file ws p text fs

unfoldable pub newlines : Bool → Text → Text
unfolding nat_eq
newlines after_cr [] = []
newlines after_cr (c ∷ cs) =
    let rest = newlines (c == 13) cs in
    if c == 13 then 10 ∷ rest else if after_cr && c == 10 then rest else c ∷ rest

unfoldable pub text_of : Option File → Option Text
unfolding newlines
text_of none = none
text_of (some f) = some (newlines false f.contents)

unfoldable pub read_file : String → String → List File → Option Text
unfolding text_of first
read_file ws p files = text_of (first (file_is ws p) files)

abbrev pub log_path : String → String
log_path id = ".forge/exec/" <> id <> ".log"

abbrev pub write_log : Write → String → String → Text → Disk → Result String × Disk
write_log whole ws id text d =
    (ok (log_path id), record d { files = put_file ws (log_path id) text d.files })
write_log refused ws id text d = (err os_error, d)
write_log (cut part) ws id text d =
    (err os_error, record d { files = put_file ws (log_path id) part d.files })

-- `_spill_overflow`
unfoldable pub spill_overflow : Write → String → String → Text → Action String
unfolding path put_file
spill_overflow write ws id text w = elim (path ws) [
  | ok _ ↦ on_disk (write_log write ws id text) w
  | err e ↦ raises e w
]

-- What the host answers to one call.
pub record Host : Type 0 where
  pub exec_id : String
  pub started_at : ℕ
  pub finished_at : ℕ
  pub elapsed_ms : ℕ
  pub write : Write
  pub readable : Bool
  pub float_ms : ℕ → ℕ

abbrev pub minus : ℕ → ℤ
minus zero = pos 0
minus (suc n) = negsuc n

-- `int((finished_at - started_at).total_seconds() * 1000)`, where `float_ms` is the arithmetic on
-- floats for a span of microseconds that is not negative.
unfoldable pub span_ms : (ℕ → ℕ) → Option DateTime → Option DateTime → ℤ
span_ms float_ms none f = pos 0
span_ms float_ms (some s) none = pos 0
span_ms float_ms (some s) (some f) =
    if leb (instant s) (instant f)
    then pos (float_ms (instant f - instant s))
    else minus (float_ms (instant s - instant f))

-- The text that a replay shows: that of the log, if there is one that can be read.
abbrev pub logged : Host → String → Option String → List File → Text
logged host ws none files = []
logged host ws (some p) files =
    if p == "" || not host.readable
    then []
    else elim (read_file ws p files) [ none ↦ [] | some text ↦ text ]

-- `_result_from_terminal_execution`; `path` is called only where there is an `output_path`.
unfoldable pub replayed : Host → String → Execution → Disk → ExecutionResult
unfolding span_ms read_file
replayed host ws ex d = record {
  execution_id = ex.id;
  output = logged host ws ex.output_path d.files;
  exit_code = elim ex.exit_code [ none ↦ negsuc 0 | some c ↦ c ];
  truncated = ex.truncated;
  output_path = ex.output_path;
  duration_ms = span_ms host.float_ms ex.started_at ex.finished_at;
}

abbrev pub has_log : Execution → Bool
has_log ex = elim ex.output_path [ none ↦ false | some p ↦ not (p == "") ]

unfoldable pub result_from_terminal_execution : Host → String → Execution → Action ExecutionResult
unfolding replayed path
result_from_terminal_execution host ws ex w =
    if has_log ex && not (valid_workspace_id ws)
    then raises workspace_error w
    else returns (replayed host ws ex w.disk) w
