-- ===== src/Client/Streams.antt =====
-- Events on their way through HTTP: `stream_events` of src/forge/server/routes/executions.py writes
-- them, and `subscribe` of src/forge/client/http_client.py reads them from chunks.
use xforgebox.Base.{
  ℕ, zero, suc, ◌≤◌, ◌<◌, ◌&&◌, Option, none, some, List, [], ◌∷◌, ◌++◌, append_assoc, append-nil,
  map, if◌then◌else◌, ◌==◌, nat_eq, length, length-drop, drop, keep_if, ◌≡◌, refl, sym, ap, ◌∙◌,
  arith, Bool-cases, Option-cases, inl, inr,
}
use xforgebox.Models.{Text}
use xforgebox.Strings.Lines.{bare_lines, starts_lf}
use xforgebox.Strings.Replace.{begins}
use xforgebox.Services.Files.Paths.{codes}

-- An event as it is sent: its kind, and its JSON.
abbrev pub Event : Type 0
Event = Text × Text

-- `f"event: {event.kind}\ndata: {payload}\n\n"`
unfoldable pub sse_frame : Event → Text
sse_frame (kind, payload) =
    codes "event: " ++ (kind ++ 10 ∷ (codes "data: " ++ (payload ++ 10 ∷ 10 ∷ [])))

unfoldable pub sse : List Event → Text
unfolding sse_frame
sse [] = []
sse (e ∷ es) = sse_frame e ++ sse es

abbrev pub before : ℕ → Option (Text × Text) → Option (Text × Text)
before c none = none
before c (some (raw, rest)) = some (c ∷ raw, rest)

-- `buf.split("\n\n", 1)`, if there is an empty line.
unfoldable pub split_frame : Text → Option (Text × Text)
unfolding nat_eq
split_frame [] = none
split_frame (c ∷ cs) =
    let further = before c (split_frame cs) in
    if c == 10 && starts_lf cs then some ([], drop 1 cs) else further

-- The `while` loop: the frames that are complete, and what is left in the buffer.
unfoldable pub frames_in : ℕ → Text → List Text × Text
unfolding split_frame
frames_in zero buf = ([], buf)
frames_in (suc n) buf = elim (split_frame buf) [
  | none ↦ ([], buf)
  | some out ↦ (out.0 ∷ (frames_in n out.1).0, (frames_in n out.1).1)
]

-- Each frame takes two characters at least, so that the length of the buffer bounds the loop.
unfoldable pub frames : Text → List Text × Text
unfolding frames_in
frames buf = frames_in (length buf) buf

-- The payloads in a frame.
unfoldable pub payloads : Text → List Text
unfolding bare_lines begins
payloads raw = map (drop 6) (keep_if (begins (codes "data: ")) (bare_lines raw))

unfoldable pub payloads_all : List Text → List Text
unfolding payloads
payloads_all [] = []
payloads_all (raw ∷ rest) = payloads raw ++ payloads_all rest

-- `subscribe`, from a buffer and the chunks that come.
unfoldable pub subscribe : Text → List Text → List Text
unfolding frames payloads_all
subscribe buf [] = []
subscribe buf (chunk ∷ chunks) =
    let out = frames (buf ++ chunk) in payloads_all out.0 ++ subscribe out.1 chunks

abbrev pub concat : List Text → Text
concat [] = []
concat (c ∷ cs) = c ++ concat cs

split_frame-shorter :
    (buf raw rest : Text) → split_frame buf ≡ some (raw, rest) → length rest < length buf
unfolding split_frame
split_frame-shorter [] raw rest h = ground arith
split_frame-shorter (c ∷ cs) raw rest h = elim (Bool-cases (c == 10 && starts_lf cs)) [
  | inl here ↦ ground (arith, here, length-drop 1 cs)
  | inr later ↦ elim (Option-cases (split_frame cs)) [
    | inl k ↦ ground (arith, later, k)
    | inr ((r, t), k) ↦ ground (arith, later, k, split_frame-shorter cs r t k)
  ]
]

abbrev longer : Text → Option (Text × Text) → Option (Text × Text)
longer more none = none
longer more (some (raw, rest)) = some (raw, rest ++ more)

split_frame-append :
    (buf more raw rest : Text)
    → split_frame buf ≡ some (raw, rest)
    → split_frame (buf ++ more) ≡ some (raw, rest ++ more)
unfolding split_frame
split_frame-append [] more raw rest h = ground arith
split_frame-append (c ∷ []) more raw rest h = elim (Bool-cases (c == 10)) [
  | inl feed ↦ ground (arith, feed)
  | inr other ↦ ground (arith, other)
]
split_frame-append (c ∷ d ∷ ds) more raw rest h = elim (Bool-cases (c == 10 && d == 10)) [
  | inl here ↦ rw here (ap (longer more) (rw here at h))
  | inr later ↦ elim (Option-cases (split_frame (d ∷ ds))) [
    | inl k ↦ ground (arith, rw (later, k) at h)
    | inr ((r, t), k) ↦
        rw (later, split_frame-append (d ∷ ds) more r t k) (ap (longer more) (rw (later, k) at h))
  ]
]

-- Any fuel from the length of the buffer on gives the same.
frames-fuel :
    (n m : ℕ) (buf : Text) → length buf ≤ n → length buf ≤ m → frames_in n buf ≡ frames_in m buf
unfolding frames_in
frames-fuel zero zero buf h k = refl
frames-fuel zero (suc m) [] h k = refl
frames-fuel zero (suc m) (c ∷ buf) h k = ground arith
frames-fuel (suc n) zero [] h k = refl
frames-fuel (suc n) zero (c ∷ buf) h k = ground arith
frames-fuel (suc n) (suc m) buf h k = elim (Option-cases (split_frame buf)) [
  | inl last ↦ rw (frames_in, last) refl
  | inr ((raw, rest), more) ↦
      let less = split_frame-shorter buf raw rest more in
      rw (frames_in, more)
        (ap (λ out. (raw ∷ out.0, out.1))
          (frames-fuel n m rest (omega (arith, h, less)) (omega (arith, k, less))))
]

pub frames-none : (buf : Text) → split_frame buf ≡ none → frames buf ≡ ([], buf)
unfolding frames frames_in
frames-none [] h = refl
frames-none (c ∷ cs) h = rw (frames, frames_in, h) refl

pub frames-some :
    (buf raw rest : Text)
    → split_frame buf ≡ some (raw, rest)
    → frames buf ≡ (raw ∷ (frames rest).0, (frames rest).1)
unfolding frames frames_in
frames-some [] raw rest h = ground arith
frames-some (c ∷ cs) raw rest h =
    let less = split_frame-shorter (c ∷ cs) raw rest h in
    rw (frames, frames_in, h)
      (ap (λ out. (raw ∷ out.0, out.1))
        (frames-fuel (length cs) (length rest) rest (omega (arith, less)) (omega arith)))

-- What comes later does not change the frames that are complete.
frames-append :
    (n : ℕ) (buf more : Text)
    → length buf ≤ n
    → frames (buf ++ more)
      ≡ ((frames buf).0 ++ (frames ((frames buf).1 ++ more)).0, (frames ((frames buf).1 ++ more)).1)
unfolding split_frame
frames-append zero [] more h = rw (frames-none [] refl) refl
frames-append zero (c ∷ buf) more h = ground arith
frames-append (suc n) buf more h = elim (Option-cases (split_frame buf)) [
  | inl last ↦ rw (frames-none buf last) refl
  | inr ((raw, rest), k) ↦
      let less = split_frame-shorter buf raw rest k in
      rw
        (
          frames-some buf raw rest k,
          frames-some (buf ++ more) raw (rest ++ more) (split_frame-append buf more raw rest k),
        )
        (ap (λ out. (raw ∷ out.0, out.1)) (frames-append n rest more (omega (arith, h, less))))
]

payloads_all-append :
    (fs gs : List Text) → payloads_all (fs ++ gs) ≡ payloads_all fs ++ payloads_all gs
unfolding payloads_all
payloads_all-append [] gs = refl
payloads_all-append (f ∷ fs) gs =
    rw (payloads_all-append fs gs)
      (sym (append_assoc (payloads f) (payloads_all fs) (payloads_all gs)))

pub subscribe-frames :
    (buf : Text) (chunks : List Text)
    → payloads_all (frames buf).0 ++ subscribe (frames buf).1 chunks
      ≡ payloads_all (frames (buf ++ concat chunks)).0
unfolding subscribe
subscribe-frames buf [] = rw (append-nil buf, append-nil (payloads_all (frames buf).0)) refl
subscribe-frames buf (c ∷ cs) =
    let first = frames buf in
    let next = frames (first.1 ++ c) in
    let both = frames-append (length buf) buf c (omega arith) in
    sym (append_assoc (payloads_all first.0) (payloads_all next.0) (subscribe next.1 cs))
    ∙ ap (λ ps. ps ++ subscribe next.1 cs) (sym (payloads_all-append first.0 next.0))
    ∙ ap (λ out. payloads_all out.0 ++ subscribe out.1 cs) (sym both)
    ∙ subscribe-frames (buf ++ c) cs
    ∙ ap (λ b. payloads_all (frames b).0) (append_assoc buf c (concat cs))
