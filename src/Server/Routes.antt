-- ===== src/Server/Routes.antt =====
-- The route handlers of src/forge/server/routes, but for the stream of events, which is
-- Client/Streams.antt. A handler takes what the path captures, the query and
-- the body, in the type that FastAPI has checked them to have, else the answer is a 422.
use xforgebox.Base.{
  ℕ, String, Bool, true, false, ◌&&◌, Option, none, some, List, [], ◌∷◌, if◌then◌else◌, leb, ltb,
}
use xforgebox.Errors.{Result, ok, err, Exception, index_error}
use xforgebox.Models.{ℤ, pos, negsuc, Text, Artifact}
use xforgebox.Services.World.{Over, ◌▷◌, returns, raises}
use xforgebox.Services.Files.Ops.{UploadItem}
use xforgebox.Services.Files.Paths.{codes, split_on}
use xforgebox.Storage.ArtifactStore.{ByteStream, concat}
use xforgebox.Client.Errors.{respond}
use xforgebox.Server.State.{ForgeState, FileReadResult}
use xforgebox.Server.Wire.{Params, Body, Value, Reply}

abbrev pub Handler : Type 0 → Type 0
Handler S = List String → Params → Body → Over S Reply

-- FastAPI's own answers: their JSON has a key `detail` and no `error`.
abbrev pub detail : ℕ → Reply
detail code = record { status = code; error = none; content = Value.nothing }

abbrev invalid : {S : Type 0} → Over S Reply
invalid s = (ok (detail 422), s)

abbrev pub failure : Exception → Reply
failure e = record {
  status = (respond e).status;
  error = (respond e).body;
  content = Value.nothing;
}

-- The answer to what a handler returns, or to the exception that leaves it.
abbrev pub replied : {A : Type 0} → ℕ → (A → Value) → Result A → Reply
replied code wrap (ok a) = record { status = code; error = none; content = wrap a }
replied code wrap (err e) = failure e

abbrev pub answer : {S A : Type 0} → ℕ → (A → Value) → Over S A → Over S Reply
answer code wrap call s = let out = call s in (ok (replied code wrap out.0), out.1)

abbrev no_content : Unit {0} → Value
no_content u = Value.nothing

abbrev pub or_else : {A : Type 0} → A → Option A → A
or_else a none = a
or_else a (some b) = b

-- `Query(ge=n)`
abbrev pub at_least : ℕ → ℤ → Bool
at_least n (pos m) = leb n m
at_least n (negsuc m) = false

abbrev pub limit_fits : Option ℤ → Bool
limit_fits none = true
limit_fits (some l) = at_least 1 l

module _ {S : Type 0} (st : ForgeState S) where
  abbrev pub create_workspace : Handler S
  create_workspace [] q (Body.create_workspace r) =
      answer 201 Value.workspace (st.workspaces.create r.spec r.name r.metadata)
  create_workspace _ q _ = invalid

  abbrev pub list_workspaces : Handler S
  list_workspaces ids q b = answer 200 Value.workspaces (st.workspaces.list)

  abbrev pub get_workspace : Handler S
  get_workspace (id ∷ []) q b = answer 200 Value.workspace (st.workspaces.get id)
  get_workspace _ q b = invalid

  abbrev pub delete_workspace : Handler S
  delete_workspace (id ∷ []) q b = answer 204 no_content (st.workspaces.delete id)
  delete_workspace _ q b = invalid

  abbrev pub ls : Handler S
  ls (ws ∷ []) q b = answer 200 Value.entries (st.files.ls ws (or_else (codes ".") q.path))
  ls _ q b = invalid

  abbrev read_page : String → Text → ℤ → Option ℤ → Over S FileReadResult
  read_page ws path offset limit =
      st.files.read ws path offset (or_else (pos 2000) limit) ▷ λ (content, total, truncated).
      returns record {
        path = path;
        content = content;
        offset = offset;
        limit = limit;
        total_lines = total;
        truncated = truncated;
      }

  abbrev pub read_file : Handler S
  read_file (ws ∷ []) q b = elim q.path [
    | none ↦ invalid
    | some path ↦
        let offset = or_else (pos 0) q.offset in
        if at_least 0 offset && limit_fits q.limit
        then answer 200 Value.page (read_page ws path offset q.limit)
        else invalid
  ]
  read_file _ q b = invalid

  abbrev pub write_file : Handler S
  write_file (ws ∷ []) q (Body.write r) = answer 204 no_content (st.files.write ws r.path r.content)
  write_file _ q _ = invalid

  abbrev pub edit_file : Handler S
  edit_file (ws ∷ []) q (Body.edit r) =
      answer 200 Value.replacements
        (st.files.edit ws r.path r.old_string r.new_string r.replace_all)
  edit_file _ q _ = invalid

  abbrev pub glob_files : Handler S
  glob_files (ws ∷ []) q b = elim q.pattern [
    | none ↦ invalid
    | some pattern ↦ answer 200 Value.paths (st.files.glob ws pattern)
  ]
  glob_files _ q b = invalid

  abbrev pub grep_files : Handler S
  grep_files (ws ∷ []) q b = elim q.pattern [
    | none ↦ invalid
    | some pattern ↦ answer 200 Value.matches (st.files.grep ws pattern q.path_glob)
  ]
  grep_files _ q b = invalid

  abbrev pub delete_file : Handler S
  delete_file (ws ∷ []) q b = elim q.path [
    | none ↦ invalid
    | some path ↦ answer 204 no_content (st.files.delete ws path)
  ]
  delete_file _ q b = invalid

  abbrev pub upload : Handler S
  upload (ws ∷ []) q (Body.upload items) = answer 200 Value.written (st.files.upload_files ws items)
  upload _ q _ = invalid

  abbrev pub download : Handler S
  download (ws ∷ []) q (Body.download paths) =
      answer 200 Value.items (st.files.download_files ws paths)
  download _ q _ = invalid

  abbrev first_item : List UploadItem → Over S UploadItem
  first_item [] = raises index_error
  first_item (item ∷ items) = returns item

  abbrev pub download_one : Handler S
  download_one (ws ∷ []) q (Body.download_one (some path)) =
      answer 200 Value.item (st.files.download_files ws (path ∷ []) ▷ first_item)
  download_one _ q _ = invalid

  abbrev pub create_execution : Handler S
  create_execution (ws ∷ []) q (Body.exec r) =
      answer 200 Value.execution_result (st.executions.exec ws r)
  create_execution _ q _ = invalid

  abbrev pub list_executions : Handler S
  list_executions (ws ∷ []) q b = answer 200 Value.executions (st.executions.list ws)
  list_executions _ q b = invalid

  -- The workspace of the path is not looked at.
  abbrev pub get_execution : Handler S
  get_execution (ws ∷ id ∷ []) q b = answer 200 Value.execution (st.executions.get id)
  get_execution _ q b = invalid

  abbrev pub create_snapshot : Handler S
  create_snapshot (ws ∷ []) q (Body.create_snapshot r) =
      answer 201 Value.snapshot (st.snapshots.create ws r.name)
  create_snapshot _ q _ = invalid

  abbrev pub list_snapshots : Handler S
  list_snapshots (ws ∷ []) q b = answer 200 Value.snapshots (st.snapshots.list ws)
  list_snapshots _ q b = invalid

  abbrev pub get_snapshot : Handler S
  get_snapshot (id ∷ []) q b = answer 200 Value.snapshot (st.snapshots.get id)
  get_snapshot _ q b = invalid

  abbrev pub restore_snapshot : Handler S
  restore_snapshot (id ∷ []) q (Body.restore_snapshot r) =
      answer 201 Value.workspace (st.snapshots.restore id r.name r.metadata)
  restore_snapshot _ q _ = invalid

  abbrev pub export_artifact : Handler S
  export_artifact (ws ∷ []) q (Body.export_artifact r) =
      answer 201 Value.artifact (st.artifacts.export ws r.path r.content_type)
  export_artifact _ q _ = invalid

  abbrev pub list_artifacts : Handler S
  list_artifacts (ws ∷ []) q b = answer 200 Value.artifacts (st.artifacts.list ws)
  list_artifacts _ q b = invalid

  abbrev pub get_artifact : Handler S
  get_artifact (id ∷ []) q b = answer 200 Value.artifact (st.artifacts.get id)
  get_artifact _ q b = invalid

  -- `_healthz` of src/forge/server/app.py.
  abbrev pub healthz : Handler S
  healthz ids q b = answer 200 Value.health (st.pool_stats none)

  abbrev pub pool_status : Handler S
  pool_status ids q b = answer 200 Value.stats (st.pool_stats q.image)

-- `art.path.split("/")[-1]`
abbrev last_part : List Text → Text
last_part [] = []
last_part (t ∷ []) = t
last_part (t ∷ u ∷ ts) = last_part (u ∷ ts)

abbrev latin1 : Text → Bool
latin1 [] = true
latin1 (c ∷ cs) = ltb c 256 && latin1 cs

-- Starlette encodes the header `Content-Disposition` in Latin-1, which raises for other characters.
unfoldable pub has_header : Artifact → Bool
unfolding split_on
has_header a = latin1 (last_part (split_on b'/' (codes a.path)))

-- The status has been sent when the stream is first asked for a piece: if it raises, then or later,
-- the server can only close the connection.
abbrev pub body_of : ByteStream → Value
body_of st = elim st.raised [
  | none ↦ Value.bytes (concat st.chunks)
  | some e ↦ Value.cut (concat st.chunks)
]

abbrev pub streamed : Artifact → ByteStream → Reply
streamed a st =
    if has_header a then record { status = 200; error = none; content = body_of st } else detail 500

abbrev pub reply_stream : {S : Type 0} → Over S Reply → Over S Reply
reply_stream call s =
    let out = call s in (elim out.0 [ ok r ↦ ok r | err e ↦ ok (failure e) ], out.1)

module _ {S : Type 0} (st : ForgeState S) where
  abbrev pub download_artifact : Handler S
  download_artifact (id ∷ []) q b =
      reply_stream
        (st.artifacts.get id ▷ λ a. st.artifacts.read id ▷ λ stream. returns (streamed a stream))
  download_artifact _ q b = invalid
