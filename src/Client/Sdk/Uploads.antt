-- ===== src/Client/Sdk/Uploads.antt =====
-- `upload` and then `download` of src/forge/client/sdk.py, through the HTTP client, the routes and
-- the files service.
use xforgebox.Base.{String, some, List, [], ◌∷◌, ◌≡◌, refl, sym, ap, ◌∙◌}
use xforgebox.Errors.{Result, ok, err, err-ne-ok}
use xforgebox.Models.{Text}
use xforgebox.Strings.Utf8.{Bytes}
use xforgebox.Services.World.{next, ◌▷◌, returns}
use xforgebox.Services.Files.Host.{Tree, Os}
use xforgebox.Services.Files.Ops.{UploadItem, upload, upload_files, download_files}
use xforgebox.Services.Files.WriteRead.{IsLinkReader}
use xforgebox.Services.Files.Uploads.{download-upload}
use xforgebox.Services.Files.Search.{Patterns}
use xforgebox.Services.Files.Service.{on_disk}
use xforgebox.Server.State.{ForgeState}
use xforgebox.Server.Wire.{Value, as_written, as_items}
use xforgebox.Server.Routing.{Router, IsRouter, serve}
use xforgebox.Client.Transport.{ForgeTransport, Request}
use xforgebox.Client.Http.{http_client}
use xforgebox.Client.Agreement.Carried.{narrowed}
use xforgebox.Client.Agreement.Transports.{IsSegment, http-local}
use xforgebox.Client.Sdk.{Base64, decoded, files_upload, files_download}

-- What a call returned, from the value that shows it.
module _ {S A : Type 0} (wrap : A → Value) (pick : Value → Result A) where
  abbrev picked : Result Value × S → Result A × S
  picked out = next out (λ v s. (pick v, s))

  picked-shown :
      ((a : A) → pick (wrap a) ≡ ok a)
      → (out : Result A × S) → picked (next out (λ a. returns (wrap a))) ≡ out
  picked-shown h (ok a, s) = ap (λ r. (r, s)) (h a)
  picked-shown h (err e, s) = refl

  picked-narrowed :
      ((a : A) → pick (wrap a) ≡ ok a)
      → (out : Result A × S) → picked (narrowed (next out (λ a. returns (wrap a)))) ≡ narrowed out
  picked-narrowed h (ok a, s) = ap (λ r. (r, s)) (h a)
  picked-narrowed h (err e, s) = refl

  -- Two calls whose values agree but for the class of an exception do so themselves.
  calls_agree :
      ((a : A) → pick (wrap a) ≡ ok a)
      → (far near : Result A × S)
      → next far (λ a. returns (wrap a)) ≡ narrowed (next near (λ a. returns (wrap a)))
      → far ≡ narrowed near
  calls_agree h far near same = sym (picked-shown h far) ∙ ap picked same ∙ picked-narrowed h near

narrowed-ok :
    {S A : Type 0} (out : Result A × S) (u : S)
    → next (narrowed out) (λ a. returns tt) ≡ (ok tt, u)
    → (a : A) × (out ≡ (ok a, u))
narrowed-ok (ok a, s) u h = (a, ap (λ x. (ok a, x.1)) h)
narrowed-ok (err e, s) u h = absurd (err-ne-ok _ tt (ap (λ x. x.0) h))

one-ok :
    (out : Result Text × Tree) (names : List Text) (u : Tree)
    → next out (λ p. (returns [] ▷ λ written. returns (p ∷ written))) ≡ (ok names, u)
    → (name : Text) × (out ≡ (ok name, u))
one-ok (ok p, t) names u h = (p, ap (λ x. (ok p, x.1)) h)
one-ok (err e, t) names u h = absurd (err-ne-ok e names (ap (λ x. x.0) h))

abbrev pub base64_of : Os → Base64
base64_of os = record { encode = os.b64encode; decode = os.b64decode }

module _ (re : Patterns) (os : Os) (st : ForgeState Tree) (router : Router Tree)
    (url : String → List String) where
  -- The HTTP client of a daemon with this files service.
  abbrev pub far : ForgeTransport Tree
  far = http_client (serve (on_disk re os st) router) url

  -- The bytes that `upload` has put into a file through HTTP are what `download` returns, where base64
  -- decodes what it has encoded, `Path.resolve` looks at links only and leaves none on a path, the
  -- framework calls the handler of the only route that answers a request, and the id of the workspace
  -- is one segment of a URL.
  pub files_download-files_upload :
      (ws : String) (path : Text) (content : Bytes) (t u : Tree)
      → IsRouter router
      → IsLinkReader os
      → ((b : Bytes) → os.b64decode (os.b64encode b) ≡ some b)
      → IsSegment url ws
      → files_upload far ws (base64_of os) path content t ≡ (ok tt, u)
      → files_download far ws (base64_of os) path u ≡ (ok content, u)
  unfolding upload_files download_files
  files_download-files_upload ws path content t u rule links b64_law segment sent =
      let item : UploadItem = record { path = path; content_b64 = os.b64encode content } in
      let there : far.upload_files ws (item ∷ []) t ≡ narrowed (upload_files os ws (item ∷ []) t) =
        calls_agree Value.written as_written (λ a. refl) _ _
          (http-local (on_disk re os st) router rule url (Request.upload_files ws (item ∷ [])) t
            segment) in
      let (names, stored) =
        narrowed-ok (upload_files os ws (item ∷ []) t) u
          (sym (ap (λ out. next out (λ a. returns tt)) there) ∙ sent) in
      let (name, uploaded) = one-ok (upload os ws item t) names u stored in
      let back = download-upload os ws item content name t u links (b64_law content) uploaded in
      let again : far.download_files ws (path ∷ []) u
          ≡ narrowed (download_files os ws (path ∷ []) u, u) =
        calls_agree Value.items as_items (λ a. refl) _ _
          (http-local (on_disk re os st) router rule url (Request.download_files ws (path ∷ [])) u
            segment) in
      let items : (download_files os ws (path ∷ []) u) ≡ ok (item ∷ []) =
        rw (download_files, back) refl in
      ap (λ out. next out (decoded (base64_of os))) (again ∙ ap (λ r. narrowed (r, u)) items)
      ∙ rw (b64_law content) refl
