-- ===== src/Client/Local.antt =====
-- src/forge/client/local_client.py: the transport that calls the services in the same process.
use xforgebox.Base.{String, Option}
use xforgebox.Models.{ℤ, pos, Text}
use xforgebox.Services.World.{Over, ◌▷◌, returns}
use xforgebox.Storage.ArtifactStore.{consumed}
use xforgebox.Server.State.{ForgeState, FileReadResult}
use xforgebox.Server.Routes.{or_else}
use xforgebox.Client.Transport.{ForgeTransport}

module _ {S : Type 0} (st : ForgeState S) where
  -- A limit left out is one of 2000 lines, which the result does not show.
  abbrev local_read : String → Text → ℤ → Option ℤ → Over S FileReadResult
  local_read ws path offset limit =
      st.files.read ws path offset (or_else (pos 2000) limit) ▷ λ (content, total, truncated).
      returns record {
        path = path;
        content = content;
        offset = offset;
        limit = limit;
        total_lines = total;
        truncated = truncated;
      }

  -- `LocalClient`. The workspace that `get_execution` is given is not looked at.
  abbrev pub local_client : ForgeTransport S
  local_client = record {
    create_workspace = λ spec name metadata. st.workspaces.create spec name metadata;
    get_workspace = λ id. st.workspaces.get id;
    list_workspaces = st.workspaces.list;
    delete_workspace = λ id. st.workspaces.delete id;
    ls = λ ws path. st.files.ls ws path;
    read = local_read;
    write = λ ws path content. st.files.write ws path content;
    edit = λ ws path old new all. st.files.edit ws path old new all;
    glob = λ ws pattern. st.files.glob ws pattern;
    grep = λ ws pattern path_glob. st.files.grep ws pattern path_glob;
    delete_file = λ ws path. st.files.delete ws path;
    upload_files = λ ws items. st.files.upload_files ws items;
    download_files = λ ws paths. st.files.download_files ws paths;
    exec = λ ws req. st.executions.exec ws req;
    list_executions = λ ws. st.executions.list ws;
    get_execution = λ ws id. st.executions.get id;
    create_snapshot = λ ws name. st.snapshots.create ws name;
    list_snapshots = λ ws. st.snapshots.list ws;
    restore_snapshot = λ id name metadata. st.snapshots.restore id name metadata;
    export_artifact = λ ws path content_type. st.artifacts.export ws path content_type;
    read_artifact = λ id. st.artifacts.read id ▷ λ stream s. (consumed stream, s);
    pool_status = λ image. st.pool_stats image;
  }
