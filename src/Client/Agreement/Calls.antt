-- ===== src/Client/Agreement/Calls.antt =====
-- Each call of the HTTP client, made of the server, beside that of `LocalClient`.
use xforgebox.Base.{String, Bool, true, Option, List, [], ◌∷◌, ◌≡◌, refl, sym, arith, ap, ◌∙◌}
use xforgebox.Errors.{Result, ok}
use xforgebox.Models.{Text, WorkspaceSpec, ExecRequest, ℤ}
use xforgebox.Services.Files.Ops.{UploadItem}
use xforgebox.Storage.ArtifactStore.{ByteStream}
use xforgebox.Server.State.{ForgeState}
use xforgebox.Server.Wire.{
  Value, as_workspace, as_workspaces, as_entries, as_page, as_replacements, as_paths, as_matches,
  as_written, as_items, as_execution_result, as_execution, as_executions, as_snapshot, as_snapshots,
  as_artifact, as_stats, no_params,
}
use xforgebox.Server.Routes.{at_least, limit_fits}
use xforgebox.Server.Routing.{
  Router, IsRouter, is_filled, match_path, fits, dispatch, serve, routes,
}
use xforgebox.Client.Errors.{read_ones, no_body}
use xforgebox.Client.Transport.{Request, ForgeTransport, call, wrapped, done}
use xforgebox.Client.Local.{local_client}
use xforgebox.Client.Http.{ok_content, http_client, get}
use xforgebox.Client.Agreement.Carried.{
  narrowed, carried, stream_carried, consumed_bytes, IsServable,
}

pub no_id : {P : Type 0} → is_filled "" ≡ true → P
unfolding is_filled
no_id k = ground (arith, k)

abbrev settled : Value → Result (Unit {0})
settled v = ok tt

module _ {S : Type 0} (st : ForgeState S) (router : Router S) (rule : IsRouter router) where
  -- The client whose ids all become the same segments.
  abbrev pub remote : List String → ForgeTransport S
  remote segs = http_client (serve st router) (λ id. segs)

  pub create_workspace_agrees :
      (spec : WorkspaceSpec) (name : Option String) (metadata : List (String × String)) (s : S)
      → (segs : List String)
      → call (remote segs) (Request.create_workspace spec name metadata) s
        ≡ narrowed (call (local_client st) (Request.create_workspace spec name metadata) s)
  unfolding serve dispatch match_path fits is_filled ok_content
  create_workspace_agrees spec name metadata s segs = rw (rule (routes st) _ s refl) (
      carried 201 Value.workspace as_workspace Value.workspace
        (st.workspaces.create spec name metadata s) read_ones λ a. refl)

  pub get_workspace_agrees :
      (id : String) (s : S)
      → is_filled id ≡ true
      → call (remote (id ∷ [])) (Request.get_workspace id) s
        ≡ narrowed (call (local_client st) (Request.get_workspace id) s)
  unfolding serve dispatch match_path fits is_filled ok_content
  get_workspace_agrees String.[] s k = no_id k
  get_workspace_agrees (String.◌∷◌ c cs) s k = rw (rule (routes st) _ s refl) (
      carried 200 Value.workspace as_workspace Value.workspace
        (st.workspaces.get (String.◌∷◌ c cs) s) read_ones λ a. refl)

  pub list_workspaces_agrees :
      (s : S)
      → (segs : List String)
      → call (remote segs) Request.list_workspaces s
        ≡ narrowed (call (local_client st) Request.list_workspaces s)
  unfolding serve dispatch match_path fits is_filled ok_content
  list_workspaces_agrees s segs = rw (rule (routes st) _ s refl) (
      carried 200 Value.workspaces as_workspaces Value.workspaces (st.workspaces.list s) read_ones
        λ a. refl)

  pub delete_workspace_agrees :
      (id : String) (s : S)
      → is_filled id ≡ true
      → call (remote (id ∷ [])) (Request.delete_workspace id) s
        ≡ narrowed (call (local_client st) (Request.delete_workspace id) s)
  unfolding serve dispatch match_path fits is_filled ok_content
  delete_workspace_agrees String.[] s k = no_id k
  delete_workspace_agrees (String.◌∷◌ c cs) s k =
      rw (rule (routes st) _ s refl)
        (carried 204 done settled done (st.workspaces.delete (String.◌∷◌ c cs) s) no_body λ a. refl)

  pub ls_agrees :
      (id : String) (path : Text) (s : S)
      → is_filled id ≡ true
      → call (remote (id ∷ [])) (Request.ls id path) s
        ≡ narrowed (call (local_client st) (Request.ls id path) s)
  unfolding serve dispatch match_path fits is_filled ok_content
  ls_agrees String.[] path s k = no_id k
  ls_agrees (String.◌∷◌ c cs) path s k = rw (rule (routes st) _ s refl) (
      carried 200 Value.entries as_entries Value.entries (st.files.ls (String.◌∷◌ c cs) path s)
        read_ones λ a. refl)

  pub write_agrees :
      (id : String) (path : Text) (content : Text) (s : S)
      → is_filled id ≡ true
      → call (remote (id ∷ [])) (Request.write id path content) s
        ≡ narrowed (call (local_client st) (Request.write id path content) s)
  unfolding serve dispatch match_path fits is_filled ok_content
  write_agrees String.[] path content s k = no_id k
  write_agrees (String.◌∷◌ c cs) path content s k = rw (rule (routes st) _ s refl) (
      carried 204 done settled done (st.files.write (String.◌∷◌ c cs) path content s) no_body
        λ a. refl)

  pub edit_agrees :
      (id : String) (path : Text) (old : Text) (new : Text) (all : Bool) (s : S)
      → is_filled id ≡ true
      → call (remote (id ∷ [])) (Request.edit id path old new all) s
        ≡ narrowed (call (local_client st) (Request.edit id path old new all) s)
  unfolding serve dispatch match_path fits is_filled ok_content
  edit_agrees String.[] path old new all s k = no_id k
  edit_agrees (String.◌∷◌ c cs) path old new all s k = rw (rule (routes st) _ s refl) (
      carried 200 Value.replacements as_replacements Value.replacements
        (st.files.edit (String.◌∷◌ c cs) path old new all s) read_ones λ a. refl)

  pub glob_agrees :
      (id : String) (pattern : Text) (s : S)
      → is_filled id ≡ true
      → call (remote (id ∷ [])) (Request.glob id pattern) s
        ≡ narrowed (call (local_client st) (Request.glob id pattern) s)
  unfolding serve dispatch match_path fits is_filled ok_content
  glob_agrees String.[] pattern s k = no_id k
  glob_agrees (String.◌∷◌ c cs) pattern s k = rw (rule (routes st) _ s refl) (
      carried 200 Value.paths as_paths Value.paths (st.files.glob (String.◌∷◌ c cs) pattern s)
        read_ones λ a. refl)

  pub grep_agrees :
      (id : String) (pattern : Text) (path_glob : Option Text) (s : S)
      → is_filled id ≡ true
      → call (remote (id ∷ [])) (Request.grep id pattern path_glob) s
        ≡ narrowed (call (local_client st) (Request.grep id pattern path_glob) s)
  unfolding serve dispatch match_path fits is_filled ok_content
  grep_agrees String.[] pattern path_glob s k = no_id k
  grep_agrees (String.◌∷◌ c cs) pattern path_glob s k = rw (rule (routes st) _ s refl) (
      carried 200 Value.matches as_matches Value.matches
        (st.files.grep (String.◌∷◌ c cs) pattern path_glob s) read_ones λ a. refl)

  pub delete_file_agrees :
      (id : String) (path : Text) (s : S)
      → is_filled id ≡ true
      → call (remote (id ∷ [])) (Request.delete_file id path) s
        ≡ narrowed (call (local_client st) (Request.delete_file id path) s)
  unfolding serve dispatch match_path fits is_filled ok_content
  delete_file_agrees String.[] path s k = no_id k
  delete_file_agrees (String.◌∷◌ c cs) path s k =
      rw (rule (routes st) _ s refl)
        (carried 204 done settled done (st.files.delete (String.◌∷◌ c cs) path s) no_body λ a. refl)

  pub upload_files_agrees :
      (id : String) (items : List UploadItem) (s : S)
      → is_filled id ≡ true
      → call (remote (id ∷ [])) (Request.upload_files id items) s
        ≡ narrowed (call (local_client st) (Request.upload_files id items) s)
  unfolding serve dispatch match_path fits is_filled ok_content
  upload_files_agrees String.[] items s k = no_id k
  upload_files_agrees (String.◌∷◌ c cs) items s k = rw (rule (routes st) _ s refl) (
      carried 200 Value.written as_written Value.written
        (st.files.upload_files (String.◌∷◌ c cs) items s) read_ones λ a. refl)

  pub download_files_agrees :
      (id : String) (paths : List Text) (s : S)
      → is_filled id ≡ true
      → call (remote (id ∷ [])) (Request.download_files id paths) s
        ≡ narrowed (call (local_client st) (Request.download_files id paths) s)
  unfolding serve dispatch match_path fits is_filled ok_content
  download_files_agrees String.[] paths s k = no_id k
  download_files_agrees (String.◌∷◌ c cs) paths s k = rw (rule (routes st) _ s refl) (
      carried 200 Value.items as_items Value.items
        (st.files.download_files (String.◌∷◌ c cs) paths s) read_ones λ a. refl)

  pub exec_agrees :
      (id : String) (req : ExecRequest) (s : S)
      → is_filled id ≡ true
      → call (remote (id ∷ [])) (Request.exec id req) s
        ≡ narrowed (call (local_client st) (Request.exec id req) s)
  unfolding serve dispatch match_path fits is_filled ok_content
  exec_agrees String.[] req s k = no_id k
  exec_agrees (String.◌∷◌ c cs) req s k = rw (rule (routes st) _ s refl) (
      carried 200 Value.execution_result as_execution_result Value.execution_result
        (st.executions.exec (String.◌∷◌ c cs) req s) read_ones λ a. refl)

  pub list_executions_agrees :
      (id : String) (s : S)
      → is_filled id ≡ true
      → call (remote (id ∷ [])) (Request.list_executions id) s
        ≡ narrowed (call (local_client st) (Request.list_executions id) s)
  unfolding serve dispatch match_path fits is_filled ok_content
  list_executions_agrees String.[] s k = no_id k
  list_executions_agrees (String.◌∷◌ c cs) s k = rw (rule (routes st) _ s refl) (
      carried 200 Value.executions as_executions Value.executions
        (st.executions.list (String.◌∷◌ c cs) s) read_ones λ a. refl)

  pub create_snapshot_agrees :
      (id : String) (name : Option String) (s : S)
      → is_filled id ≡ true
      → call (remote (id ∷ [])) (Request.create_snapshot id name) s
        ≡ narrowed (call (local_client st) (Request.create_snapshot id name) s)
  unfolding serve dispatch match_path fits is_filled ok_content
  create_snapshot_agrees String.[] name s k = no_id k
  create_snapshot_agrees (String.◌∷◌ c cs) name s k = rw (rule (routes st) _ s refl) (
      carried 201 Value.snapshot as_snapshot Value.snapshot
        (st.snapshots.create (String.◌∷◌ c cs) name s) read_ones λ a. refl)

  pub list_snapshots_agrees :
      (id : String) (s : S)
      → is_filled id ≡ true
      → call (remote (id ∷ [])) (Request.list_snapshots id) s
        ≡ narrowed (call (local_client st) (Request.list_snapshots id) s)
  unfolding serve dispatch match_path fits is_filled ok_content
  list_snapshots_agrees String.[] s k = no_id k
  list_snapshots_agrees (String.◌∷◌ c cs) s k = rw (rule (routes st) _ s refl) (
      carried 200 Value.snapshots as_snapshots Value.snapshots
        (st.snapshots.list (String.◌∷◌ c cs) s) read_ones λ a. refl)

  pub restore_snapshot_agrees :
      (id : String) (name : Option String) (metadata : List (String × String)) (s : S)
      → is_filled id ≡ true
      → call (remote (id ∷ [])) (Request.restore_snapshot id name metadata) s
        ≡ narrowed (call (local_client st) (Request.restore_snapshot id name metadata) s)
  unfolding serve dispatch match_path fits is_filled ok_content
  restore_snapshot_agrees String.[] name metadata s k = no_id k
  restore_snapshot_agrees (String.◌∷◌ c cs) name metadata s k = rw (rule (routes st) _ s refl) (
      carried 201 Value.workspace as_workspace Value.workspace
        (st.snapshots.restore (String.◌∷◌ c cs) name metadata s) read_ones λ a. refl)

  pub export_artifact_agrees :
      (id : String) (path : Text) (content_type : Option String) (s : S)
      → is_filled id ≡ true
      → call (remote (id ∷ [])) (Request.export_artifact id path content_type) s
        ≡ narrowed (call (local_client st) (Request.export_artifact id path content_type) s)
  unfolding serve dispatch match_path fits is_filled ok_content
  export_artifact_agrees String.[] path content_type s k = no_id k
  export_artifact_agrees (String.◌∷◌ c cs) path content_type s k = rw (rule (routes st) _ s refl) (
      carried 201 Value.artifact as_artifact Value.artifact
        (st.artifacts.export (String.◌∷◌ c cs) path content_type s) read_ones λ a. refl)

  pub pool_status_agrees :
      (image : Option String) (s : S)
      → (segs : List String)
      → call (remote segs) (Request.pool_status image) s
        ≡ narrowed (call (local_client st) (Request.pool_status image) s)
  unfolding serve dispatch match_path fits is_filled ok_content
  pool_status_agrees image s segs =
      rw (rule (routes st) _ s refl)
        (carried 200 Value.stats as_stats Value.stats (st.pool_stats image s) read_ones λ a. refl)

  pub read_agrees :
      (id : String) (path : Text) (offset : ℤ) (limit : Option ℤ) (s : S)
      → at_least 0 offset ≡ true
      → limit_fits limit ≡ true
      → is_filled id ≡ true
      → call (remote (id ∷ [])) (Request.read id path offset limit) s
        ≡ narrowed (call (local_client st) (Request.read id path offset limit) s)
  unfolding serve dispatch match_path fits is_filled ok_content
  read_agrees String.[] path offset limit s h l k = no_id k
  read_agrees (String.◌∷◌ c cs) path offset limit s h l k =
      rw (rule (routes st) _ s refl, h, l)
        (carried 200 Value.page as_page Value.page
          ((local_client st).read (String.◌∷◌ c cs) path offset limit s) read_ones λ a. refl)

  pub get_execution_agrees :
      (ws id : String) (s : S)
      → is_filled ws ≡ true
      → is_filled id ≡ true
      → wrapped Value.execution
          (get
            (serve st router)
            (λ i. i ∷ [])
            as_execution
            ("workspaces" ∷ ws ∷ "executions" ∷ id ∷ [])
            no_params)
          s
        ≡ narrowed (call (local_client st) (Request.get_execution ws id) s)
  unfolding serve dispatch match_path fits is_filled ok_content
  get_execution_agrees String.[] id s k j = no_id k
  get_execution_agrees (String.◌∷◌ c cs) String.[] s k j = no_id j
  get_execution_agrees (String.◌∷◌ c cs) (String.◌∷◌ d ds) s k j = rw (rule (routes st) _ s refl) (
      carried 200 Value.execution as_execution Value.execution
        (st.executions.get (String.◌∷◌ d ds) s) read_ones λ a. refl)

module _ {S : Type 0} (st : ForgeState S) (router : Router S) (rule : IsRouter router) where
  pub read_artifact_agrees :
      (id : String) (s : S)
      → IsServable st id s
      → is_filled id ≡ true
      → call (remote st router rule (id ∷ [])) (Request.read_artifact id) s
        ≡ narrowed (call (local_client st) (Request.read_artifact id) s)
  unfolding serve dispatch match_path fits is_filled
  read_artifact_agrees String.[] s h k = no_id k
  read_artifact_agrees (String.◌∷◌ c cs) s (h, fitting, whole) k = rw (rule (routes st) _ s refl) (
      stream_carried (st.artifacts.get (String.◌∷◌ c cs) s) (st.artifacts.read (String.◌∷◌ c cs))
        fitting (λ (stream : ByteStream) (w : S) e. whole stream w (sym h ∙ e))
      ∙ ap (λ out. narrowed (consumed_bytes out)) h)
