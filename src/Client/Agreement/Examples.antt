-- ===== src/Client/Agreement/Examples.antt =====
-- A daemon whose services have stopped, but for its files and its workspaces, and the theorems on
-- the two transports.
use xforgebox.Base.{
  arith, String, List, none, some, true, false, [], ◌∷◌, refl, ◌≡◌, list_eq, nat_eq, ◌==◌,
}
use xforgebox.Errors.{ok, err, forge_error, pool_closed_error}
use xforgebox.Models.{pos, aware, Artifact}
use xforgebox.Services.Artifacts.{Shelf}
use xforgebox.Client.Agreement.Artifacts.{on_shelf}
use xforgebox.Storage.MetaStore.{empty_store}
use xforgebox.Services.World.{World, Over, raises}
use xforgebox.Services.Workspaces as Workspaces
use xforgebox.Services.Files.Paths.{codes}
use xforgebox.Services.Files.Host.{Tree}
use xforgebox.Services.Files.Ops.{read, upload_files}
use xforgebox.Services.Files.Hosts.{plain_way, host, host-IsLinkReader, disk}
use xforgebox.Services.Files.Search.{Patterns}
use xforgebox.Services.Files.Service.{on_disk}
use xforgebox.Server.State.{ForgeState}
use xforgebox.Server.Wire.{no_params, Method, Body, HttpRequest}
use xforgebox.Server.Routing.{is_filled, Route, routes, dispatch, match_path, fits, serve}
use xforgebox.Server.Order.{serve-Perm}
use xforgebox.Client.Transport.{ForgeTransport}
use xforgebox.Client.Local.{local_client}
use xforgebox.Client.Http.{http_client, ok_content}
use xforgebox.Client.Agreement.Limits.{read_out_of_range, no_lines_differ}
use xforgebox.Client.Sdk.{files_upload, files_download}
use xforgebox.Client.Sdk.Uploads.{base64_of, far, files_download-files_upload}
use mathlib.Core.List.{Permᴰ}

-- A service that has stopped.
abbrev off : {S A : Type 0} → Over S A
off = raises pool_closed_error

abbrev stopped : (S : Type 0) → ForgeState S
stopped S = record {
  workspaces = record {
    create = λ spec name metadata. off;
    get = λ id. off;
    list = off;
    delete = λ id. off;
  };
  files = record {
    ls = λ ws path. off;
    read = λ ws path offset limit. off;
    write = λ ws path content. off;
    edit = λ ws path old new all. off;
    glob = λ ws pattern. off;
    grep = λ ws pattern path_glob. off;
    delete = λ ws path. off;
    upload_files = λ ws items. off;
    download_files = λ ws paths. off;
  };
  executions = record { exec = λ ws req. off; list = λ ws. off; get = λ id. off };
  snapshots = record {
    create = λ ws name. off;
    list = λ ws. off;
    get = λ id. off;
    restore = λ id name metadata. off;
  };
  artifacts = record {
    export = λ ws path content_type. off;
    list = λ ws. off;
    get = λ id. off;
    read = λ id. off;
  };
  pool_stats = λ image. off;
}

abbrev plain_url : String → List String
plain_url id = id ∷ []

abbrev patterns : Patterns
patterns = record {
  compile = λ p. none;
  fullmatch = λ p text. p == text;
  fnmatchcase = λ text p. p == text;
  translate = λ p. p;
}

abbrev empty_world : World
empty_world = record {
  meta = empty_store;
  disk = record { dirs = []; files = [] };
  bus = record { subs = []; queue_size = 256 };
}

abbrev with_workspaces : ForgeState World
with_workspaces = record (stopped World) {
  workspaces = record (stopped World).workspaces { get = Workspaces.get };
}

limit_of_none :
    (http_client (serve (stopped Tree) (dispatch 404)) plain_url).read "ws_1"
      (codes "a.txt")
      (pos 0)
      (some (pos 0))
      disk
    ≡ (err forge_error, disk)
unfolding is_filled
limit_of_none =
    read_out_of_range (stopped Tree) (dispatch 404) (λ rs req s h. refl) plain_url "ws_1"
      (codes "a.txt") (pos 0) (some (pos 0)) disk (refl, refl) refl

no_lines_differ_example :
    ((local_client (on_disk patterns host (stopped Tree))).read "ws_1"
        (codes "a.txt")
        (pos 0)
        (some (pos 0))
        disk
      ≡ (
        ok record {
          path = codes "a.txt";
          content = [];
          offset = pos 0;
          limit = some (pos 0);
          total_lines = 3;
          truncated = true;
        },
        disk,
      ))
    × ((http_client (serve (on_disk patterns host (stopped Tree)) (dispatch 404)) plain_url).read
          "ws_1"
          (codes "a.txt")
          (pos 0)
          (some (pos 0))
          disk
        ≡ (err forge_error, disk))
unfolding read plain_way is_filled
no_lines_differ_example =
    no_lines_differ patterns host (stopped Tree) (dispatch 404) plain_url "ws_1" (codes "a.txt")
      (codes "one\ntwo\nthree") 3 false disk (λ rs req s h. refl) (refl, refl) refl

-- The row of an artifact, with nothing in the store.
abbrev notes : Artifact
notes = record {
  id = "art_1";
  workspace_id = "ws_1";
  path = "out/notes.txt";
  size_bytes = 3;
  content_type = none;
  created_at = aware 1000;
}

abbrev shelf : Shelf
shelf = record {
  world = record empty_world { meta = record empty_store { artifacts = notes ∷ [] } };
  exports = [];
}

abbrev shelves : ForgeState Shelf
shelves = on_shelf (λ p. "notes.txt") 65536 (stopped Shelf)

abbrev client : ForgeTransport Tree
client = far patterns host (stopped Tree) (dispatch 404) plain_url

abbrev uploaded : Tree
uploaded = (files_upload client "ws_1" (base64_of host) (codes "c/d") (0 ∷ 255 ∷ []) disk).1

files_download-files_upload_example :
    files_download client "ws_1" (base64_of host) (codes "c/d") uploaded
    ≡ (ok (0 ∷ 255 ∷ []), uploaded)
unfolding serve dispatch match_path is_filled upload_files plain_way ok_content
files_download-files_upload_example =
    files_download-files_upload patterns host (stopped Tree) (dispatch 404) plain_url "ws_1"
      (codes "c/d") (0 ∷ 255 ∷ []) disk uploaded (λ rs req s h. refl) host-IsLinkReader (λ b. refl)
      (refl, refl) refl

-- The first two routes the other way round.
abbrev swapped : List (Route Tree) → List (Route Tree)
swapped [] = []
swapped (a ∷ []) = a ∷ []
swapped (a ∷ b ∷ rs) = b ∷ a ∷ rs

abbrev list_request : HttpRequest
list_request = record {
  method = Method.get;
  path = "workspaces" ∷ [];
  params = no_params;
  json = Body.empty;
}

serve-Perm_example :
    serve (stopped Tree) (dispatch 404) list_request disk
    ≡ dispatch 404 (swapped (routes (stopped Tree))) list_request disk
unfolding fits match_path is_filled
serve-Perm_example =
    serve-Perm (stopped Tree) (dispatch 404) (swapped (routes (stopped Tree))) list_request disk
      (λ rs req s h. refl) (Permᴰ.swap refl refl) (ground arith)
