-- ===== src/Services/Workspaces.antt =====
-- src/forge/services/workspace_service.py. The id that `uuid4` yields, the time, and
-- what becomes of the `await` in `create` are arguments.
pub mod Sync
use xforgebox.Base.{ℕ, String, Option, List}
use xforgebox.Errors.{Result, ok, err, os_error, workspace_error, cancelled_error}
use xforgebox.Models.{DateTime, aware, Workspace, WorkspaceSpec, WorkspaceStatus}
use xforgebox.Storage.MetaStore.{
  create_workspace, get_workspace, list_workspaces, update_workspace_status, delete_workspace,
}
use xforgebox.Storage.WorkspaceStore.{Syscalls}
use xforgebox.Storage.WorkspaceStore as Store
use xforgebox.Services.World.{
  World, Action, Await, awaited, next, ◌▷◌, returns, raises, on_meta, on_disk,
}

unfoldable pub new_workspace :
    String → ℕ → WorkspaceSpec → Option String → List (String × String) → Workspace
new_workspace id now spec name metadata = record {
  id = id;
  spec = spec;
  status = WorkspaceStatus.ready;
  name = name;
  metadata = metadata;
  created_at = aware now;
  updated_at = aware now;
}

-- The row is inserted; if that raises, the directory is removed again, but `except Exception` lets a
-- cancellation through. What `delete` raises takes the place of the first exception.
abbrev pub undo_create : Syscalls → String → Result (Unit {0}) × World → Result (Unit {0}) × World
undo_create sys id (ok u, w) = (ok u, w)
undo_create sys id (err cancelled_error, w) = (err cancelled_error, w)
undo_create sys id (err e, w) = next (on_disk (Store.delete sys id) w) (λ _. raises e)

unfoldable pub create :
    Syscalls
    → Await
    → String
    → ℕ
    → WorkspaceSpec
    → Option String
    → List (String × String)
    → Action Workspace
unfolding new_workspace Store.create Store.delete create_workspace
create sys await id now spec name metadata =
    let ws = new_workspace id now spec name metadata in
    on_disk (Store.create sys id) ▷ λ _ w.
    next (undo_create sys id (awaited await (on_meta (create_workspace ws)) w)) (λ _. returns ws)

unfoldable pub get : String → Action Workspace
unfolding get_workspace
get id = on_meta (get_workspace id)

unfoldable pub list : Option WorkspaceStatus → Option ℕ → Action (List Workspace)
unfolding list_workspaces
list status limit = on_meta (list_workspaces status limit)

-- `except OSError`
abbrev pub tree_error : Result (Unit {0}) × World → Result (Unit {0}) × World
tree_error (err os_error, w) = (err workspace_error, w)
tree_error (err e, w) = (err e, w)
tree_error (ok u, w) = (ok u, w)

unfoldable pub delete : Syscalls → ℕ → String → Action (Unit {0})
unfolding get_workspace update_workspace_status delete_workspace Store.delete
delete sys now id =
    on_meta (get_workspace id)
    ▷ (λ _. on_meta (update_workspace_status id WorkspaceStatus.deleting (aware now)))
    ▷ (λ _ w. tree_error (on_disk (Store.delete sys id) w))
    ▷ (λ _. on_meta (delete_workspace id))
