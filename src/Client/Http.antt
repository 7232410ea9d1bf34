-- ===== src/Client/Http.antt =====
-- src/forge/client/http_client.py: the transport that sends HTTP requests. `send` is the network
-- with what answers at its other end, and `url` what an id becomes in a path: the segments that
-- the server reads.
use xforgebox.Base.{ℕ, String, Bool, Option, some, List, [], ◌∷◌, ◌++◌, if◌then◌else◌, ◌==◌, nat_eq}
use xforgebox.Errors.{Result, ok, ◌>>=◌, ◌>>◌}
use xforgebox.Models.{ℤ, Text, WorkspaceSpec, Workspace, Artifact}
use xforgebox.Services.World.{Over, ◌▷◌}
use xforgebox.Services.Files.Ops.{FileListEntry}
use xforgebox.Services.Files.Search.{GrepMatch}
use xforgebox.Server.State.{FileReadResult}
use xforgebox.Server.Wire.{
  Method, Params, no_params, Body, HttpRequest, Value, Reply, as_workspace, as_workspaces,
  as_entries, as_page, as_replacements, as_paths, as_matches, as_written, as_items,
  as_execution_result, as_execution, as_executions, as_snapshot, as_snapshots, as_artifact,
  as_stats, as_bytes,
}
use xforgebox.Client.Errors.{check_ok}
use xforgebox.Client.Transport.{ForgeTransport}

-- `_ok`
unfoldable pub ok_content : List ℕ → Reply → Result Value
unfolding check_ok nat_eq
ok_content expected r =
    check_ok expected (record { status = r.status; body = r.error })
    >> ok (if r.status == 204 then Value.nothing else r.content)

module _ {S : Type 0} (send : HttpRequest → Over S Reply) (url : String → List String) where
  abbrev workspace_url : String → List String → List String
  workspace_url ws rest = "workspaces" ∷ url ws ++ rest

  abbrev files_url : String → List String → List String
  files_url ws rest = workspace_url ws ("files" ∷ rest)

  -- A request whose answer is read, and one of which only the status is.
  abbrev fetch : {A : Type 0} → List ℕ → (Value → Result A) → HttpRequest → Over S A
  fetch expected validate req = send req ▷ λ r s. (ok_content expected r >>= validate, s)

  abbrev pub get : {A : Type 0} → (Value → Result A) → List String → Params → Over S A
  get validate path params =
      fetch (200 ∷ 201 ∷ []) validate
        record { method = Method.get; path = path; params = params; json = Body.empty }

  abbrev post : {A : Type 0} → (Value → Result A) → List String → Body → Over S A
  post validate path json =
      fetch (200 ∷ 201 ∷ []) validate
        record { method = Method.post; path = path; params = no_params; json = json }

  abbrev settle : Method → List String → Params → Body → Over S (Unit {0})
  settle method path params json =
      fetch (204 ∷ []) (λ v. ok tt)
        record { method = method; path = path; params = params; json = json }

  abbrev http_create_workspace :
      WorkspaceSpec → Option String → List (String × String) → Over S Workspace
  http_create_workspace spec name metadata =
      post as_workspace ("workspaces" ∷ [])
        (Body.create_workspace record { spec = spec; name = name; metadata = metadata })

  abbrev http_ls : String → Text → Over S (List FileListEntry)
  http_ls ws path = get as_entries (files_url ws []) record no_params { path = some path }

  -- A limit of `None` is left out of the query.
  abbrev http_read : String → Text → ℤ → Option ℤ → Over S FileReadResult
  http_read ws path offset limit =
      get as_page (files_url ws ("read" ∷ []))
        record no_params { path = some path; offset = some offset; limit = limit }

  abbrev http_write : String → Text → Text → Over S (Unit {0})
  http_write ws path content =
      settle Method.put (files_url ws ("write" ∷ [])) no_params
        (Body.write record { path = path; content = content })

  abbrev http_edit : String → Text → Text → Text → Bool → Over S ℕ
  http_edit ws path old new all =
      post as_replacements (files_url ws ("edit" ∷ []))
        (Body.edit record { path = path; old_string = old; new_string = new; replace_all = all })

  abbrev http_grep : String → Text → Option Text → Over S (List GrepMatch)
  http_grep ws pattern path_glob =
      get as_matches (files_url ws ("grep" ∷ []))
        record no_params { pattern = some pattern; path_glob = path_glob }

  abbrev http_delete_file : String → Text → Over S (Unit {0})
  http_delete_file ws path =
      settle Method.delete (files_url ws []) record no_params { path = some path } Body.empty

  abbrev http_restore_snapshot : String → Option String → List (String × String) → Over S Workspace
  http_restore_snapshot id name metadata =
      post as_workspace ("snapshots" ∷ url id ++ "restore" ∷ [])
        (Body.restore_snapshot record { name = name; metadata = metadata })

  abbrev http_export_artifact : String → Text → Option String → Over S Artifact
  http_export_artifact ws path content_type =
      post as_artifact (workspace_url ws ("artifacts" ∷ []))
        (Body.export_artifact record { path = path; content_type = content_type })

  abbrev http_read_artifact : String → Over S Text
  http_read_artifact id = fetch (200 ∷ []) as_bytes record {
    method = Method.get;
    path = "artifacts" ∷ url id ++ "content" ∷ [];
    params = no_params;
    json = Body.empty;
  }

  -- `HTTPClient`
  abbrev pub http_client : ForgeTransport S
  http_client = record {
    create_workspace = http_create_workspace;
    get_workspace = λ id. get as_workspace (workspace_url id []) no_params;
    list_workspaces = get as_workspaces ("workspaces" ∷ []) no_params;
    delete_workspace = λ id. settle Method.delete (workspace_url id []) no_params Body.empty;
    ls = http_ls;
    read = http_read;
    write = http_write;
    edit = http_edit;
    glob = λ ws pattern.
        get as_paths (files_url ws ("glob" ∷ [])) record no_params { pattern = some pattern };
    grep = http_grep;
    delete_file = http_delete_file;
    upload_files = λ ws items. post as_written (files_url ws ("upload" ∷ [])) (Body.upload items);
    download_files =
        λ ws paths. post as_items (files_url ws ("download" ∷ [])) (Body.download paths);
    exec =
        λ ws req. post as_execution_result (workspace_url ws ("executions" ∷ [])) (Body.exec req);
    list_executions = λ ws. get as_executions (workspace_url ws ("executions" ∷ [])) no_params;
    get_execution = λ ws id. get as_execution (workspace_url ws ("executions" ∷ url id)) no_params;
    create_snapshot = λ ws name.
        post as_snapshot (workspace_url ws ("snapshots" ∷ []))
          (Body.create_snapshot record { name = name });
    list_snapshots = λ ws. get as_snapshots (workspace_url ws ("snapshots" ∷ [])) no_params;
    restore_snapshot = http_restore_snapshot;
    export_artifact = http_export_artifact;
    read_artifact = http_read_artifact;
    pool_status = λ image. get as_stats ("pool" ∷ "status" ∷ []) record no_params { image = image };
  }
