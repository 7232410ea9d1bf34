-- ===== src/Client/Delivery.antt =====
-- From `stream_events` of src/forge/server/routes/executions.py to `subscribe` of
-- src/forge/client/http_client.py.
use xforgebox.Base.{
  ℕ, Bool, true, false, not, ◌&&◌, some, List, [], ◌∷◌, ◌++◌, append_assoc, map, ◌==◌, nat_eq, ◌≡◌,
  refl, sym, ap, ◌∙◌, arith,
}
use xforgebox.Models.{Text}
use xforgebox.Strings.Lines.{is_break, split_lines, without_end, bare_lines, glue}
use xforgebox.Strings.Replace.{begins}
use xforgebox.Services.Files.Paths.{codes}
use xforgebox.Client.Streams.{
  Event, sse_frame, sse, before, split_frame, frames, frames-none, frames-some, payloads,
  payloads_all, subscribe, concat, subscribe-frames,
}

-- A text of one line, without an end.
unfoldable pub one_line : Text → Bool
unfolding is_break
one_line [] = true
one_line (c ∷ cs) = not (is_break c) && one_line cs

abbrev pub AllOneLine : List Event → Type 0
AllOneLine [] = Unit
AllOneLine (e ∷ es) = (one_line e.0 ≡ true) × (one_line e.1 ≡ true) × AllOneLine es

no_break :
    (c : ℕ) (cs : Text) → one_line (c ∷ cs) ≡ true → (is_break c ≡ false) × (one_line cs ≡ true)
unfolding one_line
no_break c cs h = (ground arith, ground arith)

not_feed : (c : ℕ) → is_break c ≡ false → (c == 10) ≡ false
unfolding is_break
not_feed c h = ground arith

last-line : (a rest : Text) → one_line a ≡ true → split_frame (a ++ 10 ∷ 10 ∷ rest) ≡ some (a, rest)
unfolding split_frame
last-line [] rest h = refl
last-line (c ∷ a) rest h =
    let (n, more) = no_break c a h in rw (not_feed c n, last-line a rest more) refl

next-line :
    (a : Text) (c : ℕ) (text raw rest : Text)
    → one_line a ≡ true
    → (c == 10) ≡ false
    → split_frame (c ∷ text) ≡ some (raw, rest)
    → split_frame (a ++ 10 ∷ c ∷ text) ≡ some (a ++ 10 ∷ raw, rest)
unfolding split_frame
next-line [] c text raw rest h k s = rw k (ap (before 10) (rw k at s))
next-line (d ∷ a) c text raw rest h k s =
    let (n, more) = no_break d a h in rw (not_feed d n, next-line a c text raw rest more k s) refl

first-split :
    (a text : Text)
    → one_line a ≡ true
    → split_lines (a ++ 10 ∷ text) ≡ (a ++ 10 ∷ []) ∷ split_lines text
unfolding split_lines glue
first-split [] text h = refl
first-split (c ∷ a) text h = let (n, more) = no_break c a h in rw (n, first-split a text more) refl

only-split : (c : ℕ) (a : Text) → one_line (c ∷ a) ≡ true → split_lines (c ∷ a) ≡ (c ∷ a) ∷ []
unfolding split_lines glue
only-split c [] h = let (n, _) = no_break c [] h in rw n refl
only-split c (d ∷ a) h = let (n, more) = no_break c (d ∷ a) h in rw (n, only-split d a more) refl

end-cut : (a : Text) → one_line a ≡ true → without_end (a ++ 10 ∷ []) ≡ a
unfolding without_end
end-cut [] h = refl
end-cut (c ∷ a) h = let (n, more) = no_break c a h in rw (n, end-cut a more) refl

no_end-cut : (a : Text) → one_line a ≡ true → without_end a ≡ a
unfolding without_end
no_end-cut [] h = refl
no_end-cut (c ∷ a) h = let (n, more) = no_break c a h in rw (n, no_end-cut a more) refl

two-lines :
    (a : Text) (c : ℕ) (b : Text)
    → one_line a ≡ true
    → one_line (c ∷ b) ≡ true
    → bare_lines (a ++ 10 ∷ c ∷ b) ≡ a ∷ (c ∷ b) ∷ []
unfolding bare_lines
two-lines a c b h k =
    rw (first-split a (c ∷ b) h, only-split c b k, end-cut a h, no_end-cut (c ∷ b) k) refl

-- The frame of an event, from which its payload is taken.
abbrev raw_of : Event → Text
raw_of (kind, payload) = codes "event: " ++ (kind ++ 10 ∷ (codes "data: " ++ payload))

frame-split :
    (e : Event) (rest : Text)
    → one_line e.0 ≡ true
    → one_line e.1 ≡ true
    → split_frame (sse_frame e ++ rest) ≡ some (raw_of e, rest)
unfolding sse_frame one_line
frame-split (kind, payload) rest h k =
    let data_line : Text = codes "data: " ++ payload in
    let shape : sse_frame (kind, payload) ++ rest
        ≡ (codes "event: " ++ kind) ++ 10 ∷ (data_line ++ 10 ∷ 10 ∷ rest) =
      ap (λ t. codes "event: " ++ t)
        (append_assoc kind (10 ∷ (codes "data: " ++ (payload ++ 10 ∷ 10 ∷ []))) rest
          ∙ ap (λ t. kind ++ 10 ∷ (codes "data: " ++ t))
              (append_assoc payload (10 ∷ 10 ∷ []) rest)) in
    ap split_frame shape
    ∙ next-line (codes "event: " ++ kind) 100 (codes "ata: " ++ (payload ++ 10 ∷ 10 ∷ rest))
        data_line rest h refl (last-line data_line rest k)

payloads-raw_of :
    (e : Event) → one_line e.0 ≡ true → one_line e.1 ≡ true → payloads (raw_of e) ≡ e.1 ∷ []
unfolding payloads one_line begins
payloads-raw_of (kind, payload) h k =
    rw (two-lines (codes "event: " ++ kind) 100 (codes "ata: " ++ payload) h k) refl

sse-frames :
    (es : List Event) → AllOneLine es → payloads_all (frames (sse es)).0 ≡ map (λ e. e.1) es
unfolding sse payloads_all split_frame
sse-frames [] h = rw (frames-none [] refl) refl
sse-frames (e ∷ es) (h, k, rest) =
    rw
      (
        frames-some (sse_frame e ++ sse es) (raw_of e) (sse es) (frame-split e (sse es) h k),
        payloads-raw_of e h k,
      )
      (ap (◌∷◌ e.1) (sse-frames es rest))

-- Events that the server sends reach a subscriber of the HTTP client each once and in their order,
-- however the stream is cut into chunks, where their kinds and their JSON have no line ends (which
-- `json.dumps` escapes).
pub subscribe-sse :
    (es : List Event) (chunks : List Text)
    → AllOneLine es
    → concat chunks ≡ sse es
    → subscribe [] chunks ≡ map (λ e. e.1) es
unfolding split_frame payloads_all
subscribe-sse es chunks h sent =
    sym (ap (λ out. payloads_all out.0 ++ subscribe out.1 chunks) (frames-none [] refl))
    ∙ subscribe-frames [] chunks
    ∙ ap (λ text. payloads_all (frames text).0) sent
    ∙ sse-frames es h
