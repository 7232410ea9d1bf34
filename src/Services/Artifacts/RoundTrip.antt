-- ===== src/Services/Artifacts/RoundTrip.antt =====
-- An export and the reading of it, through src/forge/services/artifact_service.py,
-- src/forge/storage/artifact_store.py and the metastore.
use xforgebox.Base.{
  ℕ, suc, String, Option, true, false, none, some, [], ◌∷◌, ◌++◌, ==_refl, string_eq, ◌≡◌, refl, ap,
  arith, length,
}
use xforgebox.Errors.{ok}
use xforgebox.Models.{Artifact, Workspace}
use xforgebox.Storage.Rows.{has, count_if, first, first-append_fresh}
use xforgebox.Storage.MetaStore.{
  ws_is, art_is, iso, get_workspace, or_not_found, row_to_artifact, parse_iso,
}
use xforgebox.Storage.MetaStore.Ledgers.{create_artifact, get_artifact}
use xforgebox.Storage.WorkspaceStore.{File, path}
use xforgebox.Storage.ArtifactStore.{
  ByteStream, Exported, copied, artifact_of, pieces, consumed, concat-pieces,
}
use xforgebox.Storage.ArtifactStore as Store
use xforgebox.Services.Workspaces as Workspaces
use xforgebox.Services.Executions.{file_is}
use xforgebox.Services.Executions.Outcome.{get_workspace-pure}
use xforgebox.Services.Artifacts.{Shelf, is_reserved, checked_source, export, read}

-- What an export takes: the workspace and its file, at a path that is not reserved, and a new id.
pub record CanExport (id ws rel : String) (f : File) (s : Shelf) : Type 0 where
  pub up : s.world.meta.connected ≡ true
  pub owner : has (ws_is ws) s.world.meta.workspaces ≡ true
  pub row : Workspace
  pub found : (get_workspace ws s.world.meta).0 ≡ ok row
  pub valid : path ws ≡ ok ws
  pub open_to_all : is_reserved rel ≡ false
  pub stored : first (file_is ws rel) s.world.disk.files ≡ some f
  pub fresh : has (art_is id) s.world.meta.artifacts ≡ false

module _ (basename : String → String) (id : String) (now : ℕ) (ws rel : String)
    (content_type : Option String) (f : File) (s : Shelf) where
  abbrev pub exported : Artifact
  exported = artifact_of id ws rel (length f.contents) content_type now

  -- The shelf with the row and the file.
  abbrev pub with_export : Shelf
  with_export = record s {
    world = record s.world {
      meta = record s.world.meta { artifacts = s.world.meta.artifacts ++ exported ∷ [] };
    };
    exports = record { id = id; filename = basename rel; contents = f.contents } ∷ s.exports;
  }

  create_artifact-new :
      CanExport id ws rel f s
      → create_artifact exported s.world.meta ≡ (ok tt, with_export.world.meta)
  unfolding create_artifact iso
  create_artifact-new c = ground (arith, c.up, c.owner, c.fresh)

  checked :
      CanExport id ws rel f s
      → checked_source ws (some rel) s.world.disk.files ≡ ok (rel, f.contents)
  unfolding checked_source
  checked c = rw (c.open_to_all, c.stored) refl

  get_artifact-new :
      CanExport id ws rel f s
      → get_artifact id with_export.world.meta ≡ (ok exported, with_export.world.meta)
  unfolding get_artifact or_not_found row_to_artifact parse_iso
  get_artifact-new c =
      let free : count_if (art_is id) s.world.meta.artifacts ≡ 0 = ground (arith, c.fresh) in
      rw (c.up, first-append_fresh (art_is id) s.world.meta.artifacts exported free (==_refl id))
        refl

  read_new :
      (k : ℕ)
      → Store.read (suc k) id (basename rel) with_export.exports
        ≡ record { chunks = pieces (length f.contents) (suc k) f.contents; raised = none }
  unfolding Store.read first
  read_new k = ground (arith, ==_refl id, ==_refl (basename rel))

  -- A file that is exported (to a new id, from a workspace that is there, at a path that is not
  -- reserved, where the copy succeeds) gets a row that says where it was and how long, and reading it
  -- by the id gives its bytes, in pieces of any size that is not 0. The name that the copy gets, the
  -- source's, is to be what the service takes from the end of the row's path.
  pub read-export :
      (k : ℕ)
      → CanExport id ws rel f s
      → (export copied id now ws (some rel) (basename rel) content_type s
          ≡ (ok exported, with_export))
        × ((stream : ByteStream) × (read basename (suc k) id with_export ≡ (ok stream, with_export))
            × (consumed stream ≡ ok f.contents))
  unfolding export read Workspaces.get Store.export
  read-export k c = (
    rw (get_workspace-pure ws s.world.meta c.row c.found, c.valid, checked c, create_artifact-new c)
        refl,
    (
      record { chunks = pieces (length f.contents) (suc k) f.contents; raised = none },
      rw (get_artifact-new c, read_new k) refl,
      ap ok (concat-pieces (length f.contents) k f.contents (omega arith)),
    ),
  )
