-- ===== src/Storage/ArtifactStore.antt =====
-- src/forge/storage/artifact_store.py. An artifact's directory holds one file; `read` is a generator,
-- whose pieces have the size `chunk`. The contents of a file are its bytes here.
use xforgebox.Base.{
  ℕ, zero, suc, String, not, ◌&&◌, Option, none, some, List, [], ◌∷◌, ◌==◌, keep_if, string_eq,
  length, take, drop, ◌++◌, ◌≡◌, ◌≤◌, refl, ap, ◌∙◌, arith, length-drop, take-append-drop,
}
use xforgebox.Errors.{Result, ok, err, Exception, artifact_error}
use xforgebox.Models.{Text, Artifact, aware}
use xforgebox.Storage.Rows.{first}

pub record Exported : Type 0 where
  pub id : String
  pub filename : String
  pub contents : Text

-- What `copyfile` does; a directory that the source cannot be copied to is removed again.
pub data Copy : Type 0 where
  copied failed_copy : Copy

abbrev pub artifact_of : String → String → String → ℕ → Option String → ℕ → Artifact
artifact_of id ws rel size content_type now = record {
  id = id;
  workspace_id = ws;
  path = rel;
  size_bytes = size;
  content_type = content_type;
  created_at = aware now;
}

unfoldable pub export :
    Copy → String → String → Option Text → List Exported → Result (Unit {0}) × List Exported
export copy id filename none store = (err artifact_error, store)
export copied id filename (some text) store =
    (ok tt, record { id = id; filename = filename; contents = text } ∷ store)
export failed_copy id filename (some text) store = (err artifact_error, store)

unfoldable pub delete : String → List Exported → List Exported
unfolding string_eq
delete id store = keep_if (λ x. not (x.id == id)) store

-- The pieces that `read` yields, by structural recursion on a bound for their number.
unfoldable pub pieces : ℕ → ℕ → Text → List Text
pieces zero chunk text = []
pieces (suc n) chunk [] = []
pieces (suc n) chunk (c ∷ cs) = take chunk (c ∷ cs) ∷ pieces n chunk (drop chunk (c ∷ cs))

-- An asynchronous generator, by what it does when it is run: the pieces that it yields, and the
-- exception that it raises after them, if any.
pub record ByteStream : Type 0 where
  pub chunks : List Text
  pub raised : Option Exception

-- The call itself raises nothing: a file that is not there is met when the first piece is asked for.
unfoldable pub read : ℕ → String → String → List Exported → ByteStream
unfolding pieces first string_eq
read chunk id filename store = elim (first (λ x. x.id == id && x.filename == filename) store) [
  | none ↦ record { chunks = []; raised = some artifact_error }
  | some x ↦ record { chunks = pieces (length x.contents) chunk x.contents; raised = none }
]

-- All bytes of the pieces, one after the other.
pub concat : List Text → Text
concat [] = []
concat (p ∷ ps) = p ++ concat ps

-- A caller that reads a stream to its end: the bytes, or the exception.
abbrev pub consumed : ByteStream → Result Text
consumed st = elim st.raised [ none ↦ ok (concat st.chunks) | some e ↦ err e ]

-- Enough pieces are allowed for: together they are the file.
pub concat-pieces :
    (n k : ℕ) (text : Text) → length text ≤ n → concat (pieces n (suc k) text) ≡ text
unfolding pieces concat
concat-pieces zero k [] h = refl
concat-pieces zero k (c ∷ cs) h = ground arith
concat-pieces (suc n) k [] h = refl
concat-pieces (suc n) k (c ∷ cs) h =
    let rest = drop k cs in
    let shorter : length rest ≤ n = omega (arith, h, length-drop k cs) in
    ap (λ t. c ∷ (take k cs ++ t)) (concat-pieces n k rest shorter)
    ∙ ap (◌∷◌ c) (take-append-drop k cs)
