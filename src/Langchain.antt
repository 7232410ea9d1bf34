-- ===== src/Langchain.antt =====
-- src/forge/langchain/sandbox.py, on the local client, which hands its calls to `FilesService`.
use xforgebox.Base.{
  ℕ, suc, sym, Bool, true, false, String, List, [], ◌∷◌, if◌then◌else◌, ◌≡◌, refl, ap, length,
  arith, Option, none, some,
}
use xforgebox.Errors.{
  Result, ok, err, ◌>>=◌, err-ne-ok, Exception, workspace_error, path_escape_error, value_error,
}
use xforgebox.Models.{Text, ℤ, pos, ExecutionResult}
use xforgebox.Strings.Utf8.{Bytes}
use xforgebox.Services.World.{Over, next, ◌▷◌, returns}
use xforgebox.Services.Files.Host.{Tree, Os}
use xforgebox.Services.Files.Ops.{UploadItem, upload_files, download_files}

-- `except (WorkspaceError, PathEscapeError)`
unfoldable pub is_reported : Exception → Bool
is_reported workspace_error = true
is_reported path_escape_error = true
is_reported _ = false

-- `FileUploadResponse` and `FileDownloadResponse`: with an error, or with what was asked for.
pub data Answer {ℓ} (A : Type ℓ) : Type ℓ where
  done : A → Answer A
  failed : Text → Answer A

-- One file of a batch: an error of the workspace is its answer, any other goes on.
abbrev pub answered : {A : Type 0} → Text → Result A × Tree → Result (Answer A) × Tree
answered path (ok a, t) = (ok (done a), t)
answered path (err e, t) = if is_reported e then (ok (failed path), t) else (err e, t)

-- `written[0]`
abbrev first_path : List Text → Result Text
first_path [] = err value_error
first_path (p ∷ ps) = ok p

-- `aupload_files`
unfoldable pub aupload_files : Os → String → List (Text × Bytes) → Over Tree (List (Answer Text))
unfolding upload_files is_reported
aupload_files os ws [] t = (ok [], t)
aupload_files os ws ((path, content) ∷ files) t =
    let item : UploadItem = record { path = path; content_b64 = os.b64encode content } in
    let written = upload_files os ws (item ∷ []) ▷ λ ps u. (first_path ps, u) in
    next (answered path (written t))
      λ a. aupload_files os ws files ▷ λ answers. returns (a ∷ answers)

-- `adownload_files`
unfoldable pub adownload_files : Os → String → List Text → Over Tree (List (Answer Bytes))
unfolding download_files is_reported
adownload_files os ws [] t = (ok [], t)
adownload_files os ws (path ∷ paths) t =
    let content : Result Bytes =
      download_files os ws (path ∷ []) t >>= λ items. first_content items in
    next (answered path (content, t))
      λ a. adownload_files os ws paths ▷ λ answers. returns (a ∷ answers)
  where
    -- `base64.b64decode(items[0]["content_b64"])`
    first_content : List UploadItem → Result Bytes
    first_content [] = err value_error
    first_content (item ∷ items) = elim (os.b64decode item.content_b64) [
      | none ↦ err value_error
      | some b ↦ ok b
    ]

-- `ExecuteResponse`: no output where it is the message of an exception.
pub record ExecuteResponse : Type 0 where
  pub output : Option Text
  pub exit_code : ℤ
  pub truncated : Bool

-- `aexecute`, of what the execution service answers to `sh -c command`.
unfoldable pub aexecute : Result ExecutionResult → Result ExecuteResponse
unfolding is_reported
aexecute (ok r) =
    ok record { output = some (r.output); exit_code = r.exit_code; truncated = r.truncated }
aexecute (err e) =
    if is_reported e
    then ok record { output = none; exit_code = pos 1; truncated = false }
    else err e

abbrev answer_count : {B : Type 0} → Result (List B) → ℕ
answer_count (ok bs) = length bs
answer_count (err e) = 0

next-length :
    {A B : Type 0} (out : Result A × Tree) (k : A → Over Tree (List B)) (n : ℕ) (bs : List B)
    → ((a : A) (u : Tree) (cs : List B) → (k a u).0 ≡ ok cs → length cs ≡ n)
    → (next out k).0 ≡ ok bs
    → length bs ≡ n
next-length (ok a, t) k n bs each h = each a t bs h
next-length (err e, t) k n bs each h = absurd (err-ne-ok e bs h)

next-cons :
    {B : Type 0} (a : B) (out : Result (List B) × Tree) (n : ℕ) (cs : List B)
    → ((bs : List B) → out.0 ≡ ok bs → length bs ≡ n)
    → (next out (λ bs. returns (a ∷ bs))).0 ≡ ok cs
    → length cs ≡ suc n
next-cons a (ok bs, t) n cs known h = omega (arith, known bs refl, sym (ap answer_count h))
next-cons a (err e, t) n cs known h = absurd (err-ne-ok e cs h)

-- A batch that comes back has one answer for each of its files.
pub length-aupload_files :
    (os : Os) (ws : String) (files : List (Text × Bytes)) (t : Tree) (answers : List (Answer Text))
    → (aupload_files os ws files t).0 ≡ ok answers
    → length answers ≡ length files
unfolding aupload_files
length-aupload_files os ws [] t answers h = ground (arith, h)
length-aupload_files os ws ((path, content) ∷ files) t answers h =
    let item : UploadItem = record { path = path; content_b64 = os.b64encode content } in
    let written = upload_files os ws (item ∷ []) ▷ λ ps u. (first_path ps, u) in
    next-length (answered path (written t)) _ (suc (length files)) answers
      (λ a u cs.
        next-cons a (aupload_files os ws files u) (length files) cs
          (length-aupload_files os ws files u))
      h
