-- ===== src/Client/Agreement/Carried.antt =====
-- One answer on its way from a route of the server to the caller of the HTTP client.
use xforgebox.Base.{ℕ, String, true, none, List, [], ◌∷◌, ◌≡◌, refl}
use xforgebox.Errors.{Result, ok, err, ◌>>=◌}
use xforgebox.Services.World.{Over, next, ◌▷◌, returns}
use xforgebox.Models.{Artifact}
use xforgebox.Storage.ArtifactStore.{ByteStream, consumed}
use xforgebox.Server.State.{ForgeState}
use xforgebox.Server.Wire.{Value, Reply, as_bytes}
use xforgebox.Server.Routes.{replied, has_header, streamed, reply_stream}
use xforgebox.Client.Errors.{nearest, Accepted, check_ok-respond}
use xforgebox.Client.Http.{ok_content}

-- What the HTTP client makes of what `LocalClient` does.
abbrev pub narrowed : {S A : Type 0} → Result A × S → Result A × S
narrowed (ok a, s) = (ok a, s)
narrowed (err e, s) = (err (nearest e), s)

-- What a route answers, read by the client: the value, or the nearest class of the exception.
module _ {S A : Type 0} where
  pub carried :
      {expected : List ℕ} (code : ℕ) (wrap : A → Value) (validate : Value → Result A)
      (shown : A → Value) (out : Result A × S)
      → Accepted expected
      → ((a : A) → (ok_content expected (replied code wrap (ok a)) >>= validate) ≡ ok a)
      → next {S = S}
          (next {S = S} {A = Reply}
            (ok (replied code wrap out.0), out.1)
            (λ r s. (ok_content expected r >>= validate, s)))
          (λ a. returns (shown a))
        ≡ narrowed (next out (λ a. returns (shown a)))
  unfolding ok_content
  carried code wrap validate shown (ok a, s) acc h = rw (h a) refl
  carried code wrap validate shown (err e, s) acc h = rw (check_ok-respond e acc) refl

-- A stream is read if the artifact is found, its name fits in the header of the answer, and the file
-- is there.
module _ {S : Type 0} where
  -- Each client's side of a download.
  abbrev downloaded : Result Reply × S → Result Value × S
  downloaded out =
      next (next (reply_stream (λ w. out) out.1) (λ r w. (ok_content (200 ∷ []) r >>= as_bytes, w)))
        (λ b. returns (Value.bytes b))

  abbrev pub consumed_bytes : Result ByteStream × S → Result Value × S
  consumed_bytes out =
      next (next out (λ stream s. (consumed stream, s))) (λ b. returns (Value.bytes b))

  stream_read :
      (a : Artifact) (stream : ByteStream) (w : S)
      → has_header a ≡ true
      → stream.raised ≡ none
      → downloaded (ok (streamed a stream), w) ≡ narrowed (consumed_bytes (ok stream, w))
  unfolding ok_content
  stream_read a stream w h whole = rw (h, whole) refl

  chunks_carried :
      (a : Artifact) (out : Result ByteStream × S)
      → has_header a ≡ true
      → ((stream : ByteStream) (w : S) → out ≡ (ok stream, w) → stream.raised ≡ none)
      → downloaded (next out (λ stream. returns (streamed a stream)))
        ≡ narrowed (consumed_bytes out)
  unfolding ok_content
  chunks_carried a (ok stream, w) h k = stream_read a stream w h (k stream w refl)
  chunks_carried a (err e, w) h k = rw (check_ok-respond e Accepted.stream) refl

  pub stream_carried :
      (got : Result Artifact × S) (read : Over S ByteStream)
      → ((a : Artifact) (w : S) → got ≡ (ok a, w) → has_header a ≡ true)
      → ((stream : ByteStream) (w : S)
          → next got (λ a. read) ≡ (ok stream, w)
          → stream.raised ≡ none)
      → downloaded (next got (λ a. read ▷ λ stream. returns (streamed a stream)))
        ≡ narrowed (consumed_bytes (next got (λ a. read)))
  unfolding ok_content
  stream_carried (ok a, w) read h k = chunks_carried a (read w) (h a w refl) k
  stream_carried (err e, w) read h k = rw (check_ok-respond e Accepted.stream) refl

-- What a download relies on: reading an artifact looks it up first, the last part of its path is
-- text that a header takes, and its file can be read to its end.
abbrev pub IsServable : {S : Type 0} → ForgeState S → String → S → Type 0
IsServable st id s =
    ((st.artifacts.get id ▷ λ a. st.artifacts.read id) s ≡ st.artifacts.read id s)
    × ((a : Artifact) (w : _) → st.artifacts.get id s ≡ (ok a, w) → has_header a ≡ true)
    × ((stream : ByteStream) (w : _)
        → st.artifacts.read id s ≡ (ok stream, w)
        → stream.raised ≡ none)
