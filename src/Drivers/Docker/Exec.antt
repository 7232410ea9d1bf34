-- ===== src/Drivers/Docker/Exec.antt =====
-- Commands that `DockerDriver` runs in a container.
use xforgebox.Base.{
  ℕ, ◌-◌, String, ◌<>◌, Bool, true, false, ◌||◌, Option, none, some, List, [], ◌∷◌, ◌++◌,
  if◌then◌else◌, ◌==◌, nat_eq, string_eq, leb, length, take,
}
use xforgebox.Errors.{Result, ok, err, ◌>>=◌, Exception, runtime_driver_error, exec_timeout_error}
use xforgebox.Models.{Text, ℤ, pos, negsuc, ExecutionResult}
use xforgebox.Strings.Utf8.{Bytes, decode}
use xforgebox.Drivers.Docker.Containers.{Reply, done, refused, raised}

abbrev pub Env : Type 0
Env = List (String × String)

-- `out[key] = value`
unfoldable pub set_value : String → String → Env → Env
unfolding string_eq
set_value key value [] = (key, value) ∷ []
set_value key value ((k, v) ∷ env) =
    let rest = set_value key value env in if k == key then (k, value) ∷ env else (k, v) ∷ rest

-- `out.update(env)`
unfoldable pub update : Env → Env → Env
unfolding set_value
update out [] = out
update out ((k, v) ∷ env) = update (set_value k v out) env

abbrev pub forge_env : String → Env
forge_env ws =
    ("FORGE_WORKSPACE_DIR", "/workspaces/" <> ws)
    ∷ ("FORGE_WORKSPACE_ID", ws)
    ∷ ("PWD", "/workspace")
    ∷ []

-- `_build_exec_env`
unfoldable pub build_exec_env : String → Env → Env
unfolding update
build_exec_env ws env = update (forge_env ws) env

-- What `container.exec` is called with.
unfoldable pub exec_args : List String → String → Env → List String × Env
unfolding build_exec_env
exec_args command ws env = ("forge-run" ∷ command, build_exec_env ws env)

-- `_drain`, one chunk: the buffer, and whether it is full.
unfoldable pub drain_chunk : ℕ → Bytes × Bool → Bytes → Bytes × Bool
drain_chunk most (buf, truncated) chunk =
    if truncated || leb most (length buf)
    then (buf, true)
    else let more = buf ++ take (most - length buf) chunk in (more, leb most (length more))

unfoldable pub drain : ℕ → Bytes × Bool → List Bytes → Bytes × Bool
unfolding drain_chunk
drain most state [] = state
drain most state (chunk ∷ chunks) = drain most (drain_chunk most state chunk) chunks

-- The chunks that came before the end of the stream, the timeout or an exception.
pub data Stream : Type 0 where
  ended timed_out : List Bytes → Stream
  broken : Exception → Stream
  disconnected : Stream

-- The exit code that `inspect` tells: there may be none yet, or no answer.
abbrev pub inspected : Reply → Option ℤ → Result ℤ
inspected done none = ok (negsuc 0)
inspected done (some code) = ok code
inspected (refused s) code = ok (negsuc 0)
inspected (raised e) code = err e

-- `exec_in_environment`: `create` is the answer to `container.exec`, `inspect` that to
-- `exec_.inspect`; `id` and `duration_ms` come from `uuid4` and the clock.
unfoldable pub exec_in_environment :
    Reply → Stream → Reply → Option ℤ → String → ℤ → ℕ → Result ExecutionResult
unfolding drain decode
exec_in_environment create stream inspect code id duration_ms most = elim create [
  | refused s ↦ err runtime_driver_error
  | raised e ↦ err e
  | done ↦ elim stream [
    | disconnected ↦ err runtime_driver_error
    | broken e ↦ err e
    | timed_out chunks ↦ ok (result (pos 124) (drain most ([], false) chunks))
    | ended chunks ↦ inspected inspect code >>= λ exit_code.
        ok (result exit_code (drain most ([], false) chunks))
  ]
]
  where
    result : ℤ → Bytes × Bool → ExecutionResult
    result exit_code (buf, truncated) = record {
      execution_id = id;
      output = decode buf;
      exit_code = exit_code;
      truncated = truncated;
      output_path = none;
      duration_ms = duration_ms;
    }

-- `LogEvent`, but for its time.
pub record LogEvent : Type 0 where
  pub execution_id : String
  pub stream : String
  pub data_text : Text

-- What a read of the stream yields: a message with its channel, the end, or an exception. A
-- deadline that has passed before the read counts as one that passes in it.
pub data Message : Type 0 where
  chunk : ℕ → Bytes → Message
  finished late lost : Message

-- `stream_exec_in_environment`: the events, and how the stream ends; a reader who stops earlier
-- closes it.
unfoldable pub stream_events : String → List Message → List LogEvent × Result (Unit {0})
unfolding decode nat_eq
stream_events id [] = ([], ok tt)
stream_events id (finished ∷ ms) = ([], ok tt)
stream_events id (late ∷ ms) = ([], err exec_timeout_error)
stream_events id (lost ∷ ms) = ([], err runtime_driver_error)
stream_events id (chunk channel bytes ∷ ms) =
    let rest = stream_events id ms in
    (
      record {
        execution_id = id;
        stream = if channel == 2 then "stderr" else "stdout";
        data_text = decode bytes;
      }
          ∷ rest.0,
      rest.1,
    )

unfoldable pub stream_exec_in_environment :
    Reply → String → List Message → List LogEvent × Result (Unit {0})
unfolding stream_events
stream_exec_in_environment done id ms = stream_events id ms
stream_exec_in_environment (refused s) id ms = ([], err runtime_driver_error)
stream_exec_in_environment (raised e) id ms = ([], err e)
