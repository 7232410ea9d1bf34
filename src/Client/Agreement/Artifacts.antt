-- ===== src/Client/Agreement/Artifacts.antt =====
-- Where the two transports differ: `read_artifact` of an artifact whose file is gone.
use xforgebox.Base.{ℕ, String, true, none, ◌&&◌, ◌==◌, string_eq, ◌≡◌}
use xforgebox.Errors.{ok}
use xforgebox.Models.{Artifact}
use xforgebox.Storage.Rows.{first}
use xforgebox.Storage.MetaStore.Ledgers.{get_artifact}
use xforgebox.Storage.ArtifactStore as Store
use xforgebox.Services.Artifacts as Artifacts
use xforgebox.Services.Artifacts.{Shelf}
use xforgebox.Server.State.{ForgeState}
use xforgebox.Server.Routes.{has_header}
use xforgebox.Server.Routing.{Router, IsRouter}

-- A daemon whose artifacts are those of the artifact service.
abbrev pub on_shelf : (String → String) → ℕ → ForgeState Shelf → ForgeState Shelf
on_shelf basename chunk st = record st {
  artifacts = record st.artifacts { get = Artifacts.get; read = Artifacts.read basename chunk };
}

-- The row of an artifact is there, its name fits in a header, and its file is not in the store.
pub record FileGone (basename : String → String) (id : String) (a : Artifact) (s : Shelf)
    : Type 0 where
  pub row : get_artifact id s.world.meta ≡ (ok a, s.world.meta)
  pub named : has_header a ≡ true
  pub gone : first (λ x. x.id == id && x.filename == basename a.path) s.exports ≡ none

module _ (basename : String → String) (chunk : ℕ) (st : ForgeState Shelf) (router : Router Shelf)
    (rule : IsRouter router) where
  abbrev daemon : ForgeState Shelf
  daemon = on_shelf basename chunk st
