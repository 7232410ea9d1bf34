-- ===== src/Drivers/Docker/Output.antt =====
-- What `DockerDriver` returns of the output of a command, and the environment that it runs with.
use xforgebox.Base.{
  ℕ, zero, suc, ◌+◌, ◌-◌, ◌<◌, ◌≤◌, min, String, Bool, true, false, not, ◌&&◌, Option, none, some,
  List, [], ◌∷◌, ◌++◌, append-nil, append_assoc, string_eq, ◌≡◌, refl, sym, ap, ap₂, ◌∙◌, subst,
  arith, Bool-cases, inl, inr, leb, leb→le, length, length-append, length-take, take, take-all,
  take-append, take-append_le,
}
use xforgebox.Errors.{Result, ok, err}
use xforgebox.Models.{ℤ, pos, negsuc, ExecutionResult}
use xforgebox.Strings.Utf8.{Bytes, decode}
use xforgebox.Strings.Utf8.Decode.{length-decode}
use xforgebox.Drivers.Docker.Containers.{Reply, done, refused, raised}
use xforgebox.Drivers.Docker.Exec.{
  drain_chunk, drain, Stream, ended, timed_out, broken, disconnected, exec_in_environment,
}

-- The output as it came, in one piece.
abbrev pub concat : List Bytes → Bytes
concat [] = []
concat (c ∷ cs) = c ++ concat cs

abbrev pub is_empty : List Bytes → Bool
is_empty [] = true
is_empty (c ∷ cs) = false

module _ (most : ℕ) where
  abbrev outcome : Bytes → Bytes × Bool
  outcome all = (take most all, leb most (length all))

  take-nil : (n : ℕ) → take {A = ℕ} n [] ≡ []
  take-nil zero = refl
  take-nil (suc n) = refl

  drain-full : (buf : Bytes) (chunks : List Bytes) → drain most (buf, true) chunks ≡ (buf, true)
  unfolding drain
  drain-full buf [] = refl
  drain-full buf (c ∷ cs) = drain-full buf cs

  drain-room :
      (buf : Bytes) (chunks : List Bytes)
      → length buf < most
      → drain most (buf, false) chunks
        ≡ (take most (buf ++ concat chunks), leb most (length (buf ++ concat chunks)))
  unfolding drain
  drain-room buf [] h =
      rw (append-nil buf, take-all most buf (omega (arith, h))) (ap (λ b. (buf, b)) (ground arith))
  drain-room buf (c ∷ cs) h =
      let more : Bytes = buf ++ take (most - length buf) c in
      let now = take-append most buf c (omega (arith, h)) in
      let size : length more ≡ min most (length buf + length c) = omega (
        arith,
        h,
        length-append buf (take (most - length buf) c),
        length-take (most - length buf) c,
      ) in
      let all : length (buf ++ (c ++ concat cs)) ≡ length buf + (length c + length (concat cs)) =
        omega (arith, length-append buf (c ++ concat cs), length-append c (concat cs)) in
      let before : leb most (length buf) ≡ false = ground arith in
      elim (Bool-cases (leb most (length more))) [
        | inl full ↦
            let kept : more ≡ take most (buf ++ (c ++ concat cs)) =
              sym now
              ∙ sym (
                  take-append_le most (buf ++ c) (concat cs)
                    (omega (arith, size, leb→le most (length more) full, length-append buf c)))
              ∙ ap (take most) (append_assoc buf c (concat cs)) in
            rw (drain, drain_chunk, before, full)
              (drain-full more cs ∙ ap₂ (λ b t. (b, t)) kept (ground arith))
        | inr room ↦
            let fits : length more < most = ground arith in
            let whole : more ≡ buf ++ c =
              ap (λ b. buf ++ b) (take-all (most - length buf) c (omega (arith, size, fits))) in
            rw (drain, drain_chunk, before, room)
              (drain-room more cs fits
                ∙ ap (λ b. outcome (b ++ concat cs)) whole
                ∙ ap outcome (append_assoc buf c (concat cs)))
      ]

  -- The first bytes, however the output is cut into chunks.
  drain-take :
      (chunks : List Bytes)
      → drain most ([], false) chunks
        ≡ (take most (concat chunks), not (is_empty chunks) && leb most (length (concat chunks)))
  unfolding drain
  drain-take [] = ap (λ b. (b, false)) (sym (take-nil most))
  drain-take (c ∷ cs) = elim (Bool-cases (leb most 0)) [
    | inl none_left ↦
        let nothing : most ≡ 0 = ground arith in
        rw (drain, drain_chunk, none_left)
          (drain-full [] cs
            ∙ ap₂ (λ b t. (b, t)) (ap (λ n. take n (c ++ concat cs)) (sym nothing)) (ground arith))
    | inr room ↦ drain-room [] (c ∷ cs) (ground arith)
  ]

drained-within :
    (most : ℕ) (chunks : List Bytes) → length (decode (drain most ([], false) chunks).0) ≤ most
drained-within most chunks =
    let kept = ap (λ out. length out.0) (drain-take most chunks) in
    omega (
      arith,
      kept,
      length-take most (concat chunks),
      length-decode (drain most ([], false) chunks).0,
    )

abbrev pub chunks_of : Stream → List Bytes
chunks_of (ended chunks) = chunks
chunks_of (timed_out chunks) = chunks
chunks_of (broken e) = []
chunks_of disconnected = []

-- The output is what the first `most` bytes of the chunks decode to; it counts as truncated where
-- there is a chunk and at least that many bytes have come.
abbrev pub HasOutput : ℕ → List Bytes → ExecutionResult → Type 0
HasOutput most chunks r =
    (r.output ≡ decode (take most (concat chunks)))
    × (r.truncated ≡ not (is_empty chunks) && leb most (length (concat chunks)))
    × (length r.output ≤ most)

drained-HasOutput :
    (most : ℕ) (chunks : List Bytes) (id : String) (code duration : ℤ)
    → let out = drain most ([], false) chunks in
      HasOutput most chunks record {
        execution_id = id;
        output = decode out.0;
        exit_code = code;
        truncated = out.1;
        output_path = none;
        duration_ms = duration;
      }
drained-HasOutput most chunks id code duration = (
  ap (λ out. decode out.0) (drain-take most chunks),
  ap (λ out. out.1) (drain-take most chunks),
  drained-within most chunks,
)

-- What holds of a result, if there is one.
abbrev Holds : (ExecutionResult → Type 0) → Result ExecutionResult → Type 0
Holds P (ok r) = P r
Holds P (err e) = Unit

module _ (id : String) (duration : ℤ) (most : ℕ) where
  every-HasOutput :
      (create : Reply) (stream : Stream) (inspect : Reply) (code : Option ℤ)
      → Holds
          (HasOutput most (chunks_of stream))
          (exec_in_environment create stream inspect code id duration most)
  unfolding exec_in_environment
  every-HasOutput (refused s) stream inspect code = tt
  every-HasOutput (raised e) stream inspect code = tt
  every-HasOutput done disconnected inspect code = tt
  every-HasOutput done (broken e) inspect code = tt
  every-HasOutput done (timed_out chunks) inspect code =
      drained-HasOutput most chunks id (pos 124) duration
  every-HasOutput done (ended chunks) done none =
      drained-HasOutput most chunks id (negsuc 0) duration
  every-HasOutput done (ended chunks) done (some c) = drained-HasOutput most chunks id c duration
  every-HasOutput done (ended chunks) (refused s) code =
      drained-HasOutput most chunks id (negsuc 0) duration
  every-HasOutput done (ended chunks) (raised e) code = tt

-- Whatever the daemon answers, and whether the command ends or is timed out: the output of a result
-- is what the first `max_output_bytes` bytes that came decode to, however they were cut into
-- chunks, and has at most as many characters. It counts as truncated if there was a chunk and at
-- least that many bytes came, so also where they were exactly as many and none is lost.
pub exec-HasOutput :
    (create inspect : Reply) (stream : Stream) (code : Option ℤ) (id : String) (duration : ℤ)
    (most : ℕ) (r : ExecutionResult)
    → exec_in_environment create stream inspect code id duration most ≡ ok r
    → HasOutput most (chunks_of stream) r
exec-HasOutput create inspect stream code id duration most r h =
    subst (Holds (HasOutput most (chunks_of stream))) h
      (every-HasOutput id duration most create stream inspect code)
