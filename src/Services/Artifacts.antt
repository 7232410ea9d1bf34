-- ===== src/Services/Artifacts.antt =====
-- src/forge/services/artifact_service.py. A shelf is the world with the exported files beside it.
-- Where a path leads, through symbolic links, is an argument: `none` if it leaves the workspace.
pub mod RoundTrip
use xforgebox.Base.{
  ℕ, String, Bool, ◌||◌, Option, none, some, List, if◌then◌else◌, ◌==◌, string_eq, nat_eq, length,
}
use Prim.Native.String.{find}
use xforgebox.Errors.{Result, ok, err, artifact_error, path_escape_error, cancelled_error}
use xforgebox.Models.{Text, Artifact}
use xforgebox.Storage.MetaStore.Ledgers.{create_artifact, get_artifact, list_artifacts}
use xforgebox.Storage.Rows.{first}
use xforgebox.Storage.WorkspaceStore.{File, path}
use xforgebox.Storage.ArtifactStore.{Exported, Copy, artifact_of}
use xforgebox.Storage.ArtifactStore as Store
use xforgebox.Services.World.{World, Over, Action, next, ◌▷◌, returns, on_meta}
use xforgebox.Services.Workspaces as Workspaces
use xforgebox.Services.Executions.{file_is}

pub record Shelf : Type 0 where
  pub world : World
  pub exports : List Exported

abbrev pub on_world : {A : Type 0} → Action A → Over Shelf A
on_world call s = let out = call s.world in (out.0, record s { world = out.1 })

-- `rel.split("/", 1)[0] == FORGE_META_DIR`
unfoldable pub is_reserved : String → Bool
unfolding string_eq nat_eq
is_reserved rel = rel == ".forge" || find rel ".forge/" == 0

-- The checks of a path and the file that it names.
unfoldable pub checked_source : String → Option String → List File → Result (String × Text)
unfolding is_reserved first string_eq
checked_source ws none files = err path_escape_error
checked_source ws (some rel) files =
    if is_reserved rel then err path_escape_error else elim (first (file_is ws rel) files) [
      | none ↦ err artifact_error
      | some f ↦ ok (rel, f.contents)
    ]

-- The row is inserted; if that raises, the exported file is removed, but not for a cancellation.
abbrev pub undo_export : String → Result (Unit {0}) × Shelf → Result (Unit {0}) × Shelf
undo_export id (ok u, s) = (ok u, s)
undo_export id (err cancelled_error, s) = (err cancelled_error, s)
undo_export id (err e, s) = (err e, record s { exports = Store.delete id s.exports })

abbrev pub store_row : Artifact → Over Shelf Artifact
store_row a s = next (undo_export a.id (on_world (on_meta (create_artifact a)) s)) (λ _. returns a)

abbrev pub copy_out : Copy → String → String → Text → Over Shelf (Unit {0})
copy_out copy id filename text s =
    let out = Store.export copy id filename (some text) s.exports in
    (out.0, record s { exports = out.1 })

-- `filename` is the last part of the path that the source has, and `content_type` the one given or
-- guessed from it.
unfoldable pub export :
    Copy → String → ℕ → String → Option String → String → Option String → Over Shelf Artifact
unfolding Workspaces.get path checked_source Store.export Store.delete create_artifact
export copy id now ws resolved filename content_type =
    on_world (Workspaces.get ws)
    ▷ (λ _ s. (path ws, s))
    ▷ (λ _ s. (checked_source ws resolved s.world.disk.files, s))
    ▷ λ (rel, text). copy_out copy id filename text ▷ λ _.
        store_row (artifact_of id ws rel (length text) content_type now)

unfoldable pub get : String → Over Shelf Artifact
unfolding get_artifact
get id = on_world (on_meta (get_artifact id))

unfoldable pub list : String → Over Shelf (List Artifact)
unfolding list_artifacts
list ws = on_world (on_meta (list_artifacts ws))

-- `basename` is `row.path.rsplit("/", 1)[-1]`.
unfoldable pub read : (String → String) → ℕ → String → Over Shelf Store.ByteStream
unfolding get_artifact Store.read
read basename chunk id = on_world (on_meta (get_artifact id)) ▷ λ row s.
    (ok (Store.read chunk id (basename row.path) s.exports), s)
