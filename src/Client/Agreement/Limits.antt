-- ===== src/Client/Agreement/Limits.antt =====
-- Where the two transports differ: `read` with an offset or a limit that the route refuses.
use xforgebox.Base.{
  ℕ, String, Bool, true, false, ◌&&◌, Option, none, some, List, [], ◌∷◌, ◌≡◌, refl, sym, ap, ◌∙◌,
  ltb, length,
}
use xforgebox.Errors.{Result, ok, err, forge_error}
use xforgebox.Models.{Text, ℤ, pos}
use xforgebox.Services.Files.Host.{Tree, Os}
use xforgebox.Services.Files.Ops.{page, window, read}
use xforgebox.Services.Files.Pages.{read-lines}
use xforgebox.Services.Files.Search.{Patterns}
use xforgebox.Services.Files.Service.{on_disk, max_read_bytes}
use xforgebox.Server.State.{ForgeState}
use xforgebox.Server.Routes.{at_least, limit_fits}
use xforgebox.Server.Routing.{
  Router, IsRouter, routes, fits, is_filled, match_path, dispatch, serve,
}
use xforgebox.Client.Local.{local_client}
use xforgebox.Client.Http.{ok_content, http_client}
use xforgebox.Client.Agreement.Calls.{remote, no_id}
use xforgebox.Client.Agreement.Transports.{IsSegment}

module _ {S : Type 0} (st : ForgeState S) (router : Router S) (rule : IsRouter router) where
  refused_at :
      (id : String) (path : Text) (offset : ℤ) (limit : Option ℤ) (s : S)
      → (at_least 0 offset && limit_fits limit) ≡ false
      → is_filled id ≡ true
      → (remote st router rule (id ∷ [])).read id path offset limit s ≡ (err forge_error, s)
  unfolding serve dispatch match_path fits is_filled ok_content
  refused_at String.[] path offset limit s h k = no_id k
  refused_at (String.◌∷◌ c cs) path offset limit s h k = rw (rule (routes st) _ s refl, h) refl

  -- The HTTP client's `read` with a negative offset, or a limit below one, raises `ForgeError` itself,
  -- and no service is called.
  pub read_out_of_range :
      (url : String → List String) (ws : String) (path : Text) (offset : ℤ) (limit : Option ℤ)
      (s : S)
      → IsSegment url ws
      → (at_least 0 offset && limit_fits limit) ≡ false
      → (http_client (serve st router) url).read ws path offset limit s ≡ (err forge_error, s)
  read_out_of_range url ws path offset limit s (h, k) out =
      ap (λ segs. (remote st router rule segs).read ws path offset limit s) h
      ∙ refused_at ws path offset limit s out k

-- The number of lines that a read returned.
abbrev counted : Result (Text × ℕ × Bool) → ℕ
counted (ok (content, total, truncated)) = total
counted (err e) = 0

-- Of a file that can be read, a `read` of no lines returns none through LocalClient, with the
-- count of the lines and whether there are any. Through the HTTP client it raises `ForgeError`, if the
-- framework calls the handler of the only route that answers a request, and the id of the workspace
-- is one segment of a URL.
pub no_lines_differ :
    (re : Patterns) (os : Os) (st : ForgeState Tree) (router : Router Tree)
    (url : String → List String) (ws : String) (path content : Text) (total : ℕ) (truncated : Bool)
    (t : Tree)
    → IsRouter router
    → IsSegment url ws
    → read os ws path (pos 0) none max_read_bytes t ≡ ok (content, total, truncated)
    → ((local_client (on_disk re os st)).read ws path (pos 0) (some (pos 0)) t ≡ (
      ok record {
        path = path;
        content = [];
        offset = pos 0;
        limit = some (pos 0);
        total_lines = total;
        truncated = ltb 0 total;
      },
      t,
    ))
      × ((http_client (serve (on_disk re os st) router) url).read ws path (pos 0) (some (pos 0)) t
          ≡ (err forge_error, t))
unfolding page window
no_lines_differ re os st router url ws path content total truncated t rule segment h =
    let (lines, paged) = read-lines os ws path max_read_bytes t (pos 0) none _ h in
    let count : length lines ≡ total = ap counted (sym (paged (pos 0) none) ∙ h) in
    (
      rw (paged (pos 0) (some 0), count) refl,
      read_out_of_range (on_disk re os st) router rule url ws path (pos 0) (some (pos 0)) t segment
          refl,
    )
