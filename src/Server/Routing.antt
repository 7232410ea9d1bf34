-- ===== src/Server/Routing.antt =====
-- Which handler answers a request: the routes in the order in which `create_app` of
-- src/forge/server/app.py includes the routers of src/forge/server/routes. That of the stream of
-- events is left out.
use xforgebox.Base.{
  ℕ, String, Bool, Option, none, some, List, [], ◌∷◌, ◌++◌, true, false, ◌&&◌, ◌+◌, ◌≡◌,
  if◌then◌else◌, ◌==◌, string_eq,
}
use xforgebox.Errors.{ok}
use xforgebox.Services.World.{Over}
use xforgebox.Server.State.{ForgeState}
use xforgebox.Server.Wire.{Method, HttpRequest, Reply}
use xforgebox.Server.Routes as Routes
use xforgebox.Server.Routes.{Handler, detail}

pub data Segment : Type 0 where
  lit : String → Segment
  var : Segment

-- A parameter of a path takes one segment that is not empty.
unfoldable pub is_filled : String → Bool
is_filled String.[] = false
is_filled (String.◌∷◌ c cs) = true

unfoldable pub match_path : List Segment → List String → Option (List String)
unfolding string_eq is_filled
match_path [] [] = some []
match_path [] (part ∷ parts) = none
match_path (seg ∷ segs) [] = none
match_path (lit text ∷ segs) (part ∷ parts) =
    let rest = match_path segs parts in if text == part then rest else none
match_path (var ∷ segs) (part ∷ parts) =
    let rest = match_path segs parts in
    if is_filled part then elim rest [ none ↦ none | some ids ↦ some (part ∷ ids) ] else none

abbrev pub same : Method → Method → Bool
same Method.get Method.get = true
same Method.post Method.post = true
same Method.put Method.put = true
same Method.delete Method.delete = true
same _ _ = false

pub record Route (S : Type 0) : Type 0 where
  pub method : Method
  pub pattern : List Segment
  pub handler : Handler S

abbrev workspace_path : List Segment → List Segment
workspace_path rest = lit "workspaces" ∷ var ∷ rest

abbrev files_path : List Segment → List Segment
files_path rest = workspace_path (lit "files" ∷ rest)

module _ {S : Type 0} (st : ForgeState S) where
  abbrev route : Method → List Segment → Handler S → Route S
  route method pattern handler = record { method = method; pattern = pattern; handler = handler }

  abbrev workspace_routes : List (Route S)
  workspace_routes =
      route Method.post (lit "workspaces" ∷ []) (Routes.create_workspace st)
      ∷ route Method.get (lit "workspaces" ∷ []) (Routes.list_workspaces st)
      ∷ route Method.get (workspace_path []) (Routes.get_workspace st)
      ∷ route Method.delete (workspace_path []) (Routes.delete_workspace st)
      ∷ []

  abbrev file_routes : List (Route S)
  file_routes =
      route Method.get (files_path []) (Routes.ls st)
      ∷ route Method.get (files_path (lit "read" ∷ [])) (Routes.read_file st)
      ∷ route Method.put (files_path (lit "write" ∷ [])) (Routes.write_file st)
      ∷ route Method.post (files_path (lit "edit" ∷ [])) (Routes.edit_file st)
      ∷ route Method.get (files_path (lit "glob" ∷ [])) (Routes.glob_files st)
      ∷ route Method.get (files_path (lit "grep" ∷ [])) (Routes.grep_files st)
      ∷ route Method.delete (files_path []) (Routes.delete_file st)
      ∷ route Method.post (files_path (lit "upload" ∷ [])) (Routes.upload st)
      ∷ route Method.post (files_path (lit "download" ∷ [])) (Routes.download st)
      ∷ route Method.post (files_path (lit "download-one" ∷ [])) (Routes.download_one st)
      ∷ []

  abbrev other_routes : List (Route S)
  other_routes =
      route Method.post (workspace_path (lit "executions" ∷ [])) (Routes.create_execution st)
      ∷ route Method.get (workspace_path (lit "executions" ∷ [])) (Routes.list_executions st)
      ∷ route Method.get (workspace_path (lit "executions" ∷ var ∷ [])) (Routes.get_execution st)
      ∷ route Method.post (workspace_path (lit "snapshots" ∷ [])) (Routes.create_snapshot st)
      ∷ route Method.get (workspace_path (lit "snapshots" ∷ [])) (Routes.list_snapshots st)
      ∷ route Method.get (lit "snapshots" ∷ var ∷ []) (Routes.get_snapshot st)
      ∷ route Method.post (lit "snapshots" ∷ var ∷ lit "restore" ∷ []) (Routes.restore_snapshot st)
      ∷ route Method.post (workspace_path (lit "artifacts" ∷ [])) (Routes.export_artifact st)
      ∷ route Method.get (workspace_path (lit "artifacts" ∷ [])) (Routes.list_artifacts st)
      ∷ route Method.get (lit "artifacts" ∷ var ∷ []) (Routes.get_artifact st)
      ∷ route Method.get (lit "artifacts" ∷ var ∷ lit "content" ∷ []) (Routes.download_artifact st)
      ∷ route Method.get (lit "pool" ∷ lit "status" ∷ []) (Routes.pool_status st)
      ∷ []

  abbrev pub routes : List (Route S)
  routes =
      route Method.get (lit "healthz" ∷ []) (Routes.healthz st) ∷ workspace_routes
      ++ file_routes
      ++ other_routes

unfoldable pub fits : List Segment → List String → Bool
unfolding match_path
fits p path = elim (match_path p path) [ none ↦ false | some ids ↦ true ]

-- Does a route answer a request? And how many of them do?
abbrev pub answers : {S : Type 0} → HttpRequest → Route S → Bool
answers req r = fits r.pattern req.path && same r.method req.method

abbrev pub one : Bool → ℕ
one true = 1
one false = 0

abbrev pub answering : {S : Type 0} → HttpRequest → List (Route S) → ℕ
answering req [] = 0
answering req (r ∷ rs) = one (answers req r) + answering req rs

-- How FastAPI chooses: the first route that matches both the path and the method. Where there is
-- none, the answer has a status of its own: 404, 405, or a redirect, which the client does not follow.
unfoldable pub dispatch : {S : Type 0} → ℕ → List (Route S) → HttpRequest → Over S Reply
unfolding match_path
dispatch unrouted [] req s = (ok (detail unrouted), s)
dispatch unrouted (r ∷ rs) req s =
    let later = dispatch unrouted rs req in
    let found = match_path r.pattern req.path in
    elim found [
      | none ↦ later s
      | some ids ↦ if same r.method req.method then r.handler ids req.params req.json s else later s
    ]

-- The framework, with what the code relies on: if one route of a table answers a request, its
-- handler is called.
abbrev pub Router : Type 0 → Type 0
Router S = List (Route S) → HttpRequest → Over S Reply

abbrev pub IsRouter : {S : Type 0} → Router S → Type 0
IsRouter {S} router =
    (rs : List (Route S)) (req : HttpRequest) (s : S)
    → answering req rs ≡ 1
    → router rs req s ≡ dispatch 404 rs req s

unfoldable pub serve : {S : Type 0} → ForgeState S → Router S → HttpRequest → Over S Reply
serve st router req = router (routes st) req
