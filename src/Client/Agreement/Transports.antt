-- ===== src/Client/Agreement/Transports.antt =====
-- What a caller of the SDK may take for granted of both transports.
use xforgebox.Base.{String, true, List, [], ◌∷◌, ◌++◌, ◌≡◌, ap, ap₂, ◌∙◌}
use xforgebox.Server.State.{ForgeState}
use xforgebox.Server.Wire.{Value, as_execution, no_params}
use xforgebox.Server.Routes.{at_least, limit_fits}
use xforgebox.Server.Routing.{Router, IsRouter, is_filled, serve}
use xforgebox.Client.Transport.{Request, call, wrapped}
use xforgebox.Client.Local.{local_client}
use xforgebox.Client.Http.{http_client, get}
use xforgebox.Client.Agreement.Carried.{narrowed, IsServable}
use xforgebox.Client.Agreement.Calls.{
  remote, create_snapshot_agrees, create_workspace_agrees, delete_file_agrees,
  delete_workspace_agrees, download_files_agrees, edit_agrees, exec_agrees, export_artifact_agrees,
  get_execution_agrees, get_workspace_agrees, glob_agrees, grep_agrees, list_executions_agrees,
  list_snapshots_agrees, list_workspaces_agrees, ls_agrees, pool_status_agrees, read_agrees,
  read_artifact_agrees, restore_snapshot_agrees, upload_files_agrees, write_agrees,
}

-- An id is one segment of a path, and not empty.
abbrev pub IsSegment : (String → List String) → String → Type 0
IsSegment url id = (url id ≡ id ∷ []) × (is_filled id ≡ true)

module _ {S : Type 0} (st : ForgeState S) (router : Router S) where
  abbrev pub IsSendable : (String → List String) → Request → S → Type 0
  IsSendable url (Request.create_workspace spec name metadata) s = Unit
  IsSendable url Request.list_workspaces s = Unit
  IsSendable url (Request.pool_status image) s = Unit
  IsSendable url (Request.read ws path offset limit) s =
      IsSegment url ws × (at_least 0 offset ≡ true) × (limit_fits limit ≡ true)
  IsSendable url (Request.get_execution ws id) s = IsSegment url ws × IsSegment url id
  IsSendable url (Request.read_artifact id) s = IsSegment url id × IsServable st id s
  IsSendable url (Request.get_workspace id) s = IsSegment url id
  IsSendable url (Request.delete_workspace id) s = IsSegment url id
  IsSendable url (Request.ls id path) s = IsSegment url id
  IsSendable url (Request.write id path content) s = IsSegment url id
  IsSendable url (Request.edit id path old new all) s = IsSegment url id
  IsSendable url (Request.glob id pattern) s = IsSegment url id
  IsSendable url (Request.grep id pattern path_glob) s = IsSegment url id
  IsSendable url (Request.delete_file id path) s = IsSegment url id
  IsSendable url (Request.upload_files id items) s = IsSegment url id
  IsSendable url (Request.download_files id paths) s = IsSegment url id
  IsSendable url (Request.exec id req) s = IsSegment url id
  IsSendable url (Request.list_executions id) s = IsSegment url id
  IsSendable url (Request.create_snapshot id name) s = IsSegment url id
  IsSendable url (Request.list_snapshots id) s = IsSegment url id
  IsSendable url (Request.restore_snapshot id name metadata) s = IsSegment url id
  IsSendable url (Request.export_artifact id path content_type) s = IsSegment url id

  -- What the client sends depends on an id by its segments alone.
  abbrev sent :
      (rule : IsRouter router) (url : String → List String) (req : Request) (id : String) (s : S)
      → url id ≡ id ∷ []
      → call (remote st router rule (url id)) req s ≡ call (remote st router rule (id ∷ [])) req s
  sent rule url req id s h = ap (λ segs. call (remote st router rule segs) req s) h

  pub http-local :
      IsRouter router
      → (url : String → List String) (req : Request) (s : S) → IsSendable url req s
      → call (http_client (serve st router) url) req s ≡ narrowed (call (local_client st) req s)
  http-local rule url (Request.create_workspace spec name metadata) s h =
      create_workspace_agrees st router rule spec name metadata s []
  http-local rule url Request.list_workspaces s h = list_workspaces_agrees st router rule s []
  http-local rule url (Request.pool_status image) s h = pool_status_agrees st router rule image s []
  http-local rule url (Request.get_workspace id) s (h, k) =
      sent rule url (Request.get_workspace id) id s h ∙ get_workspace_agrees st router rule id s k
  http-local rule url (Request.delete_workspace id) s (h, k) =
      sent rule url (Request.delete_workspace id) id s h
      ∙ delete_workspace_agrees st router rule id s k
  http-local rule url (Request.ls id path) s (h, k) =
      sent rule url (Request.ls id path) id s h ∙ ls_agrees st router rule id path s k
  http-local rule url (Request.write id path content) s (h, k) =
      sent rule url (Request.write id path content) id s h
      ∙ write_agrees st router rule id path content s k
  http-local rule url (Request.edit id path old new all) s (h, k) =
      sent rule url (Request.edit id path old new all) id s h
      ∙ edit_agrees st router rule id path old new all s k
  http-local rule url (Request.glob id pattern) s (h, k) =
      sent rule url (Request.glob id pattern) id s h ∙ glob_agrees st router rule id pattern s k
  http-local rule url (Request.grep id pattern path_glob) s (h, k) =
      sent rule url (Request.grep id pattern path_glob) id s h
      ∙ grep_agrees st router rule id pattern path_glob s k
  http-local rule url (Request.delete_file id path) s (h, k) =
      sent rule url (Request.delete_file id path) id s h
      ∙ delete_file_agrees st router rule id path s k
  http-local rule url (Request.upload_files id items) s (h, k) =
      sent rule url (Request.upload_files id items) id s h
      ∙ upload_files_agrees st router rule id items s k
  http-local rule url (Request.download_files id paths) s (h, k) =
      sent rule url (Request.download_files id paths) id s h
      ∙ download_files_agrees st router rule id paths s k
  http-local rule url (Request.exec id req) s (h, k) =
      sent rule url (Request.exec id req) id s h ∙ exec_agrees st router rule id req s k
  http-local rule url (Request.list_executions id) s (h, k) =
      sent rule url (Request.list_executions id) id s h
      ∙ list_executions_agrees st router rule id s k
  http-local rule url (Request.create_snapshot id name) s (h, k) =
      sent rule url (Request.create_snapshot id name) id s h
      ∙ create_snapshot_agrees st router rule id name s k
  http-local rule url (Request.list_snapshots id) s (h, k) =
      sent rule url (Request.list_snapshots id) id s h ∙ list_snapshots_agrees st router rule id s k
  http-local rule url (Request.restore_snapshot id name metadata) s (h, k) =
      sent rule url (Request.restore_snapshot id name metadata) id s h
      ∙ restore_snapshot_agrees st router rule id name metadata s k
  http-local rule url (Request.export_artifact id path content_type) s (h, k) =
      sent rule url (Request.export_artifact id path content_type) id s h
      ∙ export_artifact_agrees st router rule id path content_type s k
  http-local rule url (Request.read id path offset limit) s ((h, k), first, count) =
      sent rule url (Request.read id path offset limit) id s h
      ∙ read_agrees st router rule id path offset limit s first count k
  http-local rule url (Request.read_artifact id) s ((h, k), servable) =
      sent rule url (Request.read_artifact id) id s h
      ∙ read_artifact_agrees st router rule id s servable k
  http-local rule url (Request.get_execution ws id) s ((h, k), (i, j)) =
      ap₂
        (λ segs more.
          wrapped Value.execution
            (get (serve st router) url as_execution ("workspaces" ∷ segs ++ ("executions" ∷ more))
              no_params)
            s)
        h i
      ∙ get_execution_agrees st router rule ws id s k j
