-- ===== src/Server/Order.antt =====
-- The order of the routes: whether it matters which router src/forge/server/app.py includes first.
use xforgebox.Base.{
  ℕ, ◌+◌, ◌≤◌, String, Bool, true, false, not, ◌&&◌, List, [], ◌∷◌, if◌then◌else◌, ◌==◌, string_eq,
  ◌≡◌, refl, sym, ap, ◌∙◌, arith, Option-cases, Bool-cases, inl, inr, ==_eq, ==_refl, subst, ap₂,
}
use mathlib.Core.Bool.{true≢false}
use mathlib.Core.List.{Permᴰ}
use xforgebox.Server.State.{ForgeState}
use xforgebox.Server.Wire.{Method, HttpRequest}
use xforgebox.Server.Routing.{
  Segment, lit, var, match_path, same, Route, Router, IsRouter, routes, fits, answers, one,
  answering, dispatch, serve,
}

-- Do two patterns have a path that both match?
unfoldable overlap : List Segment → List Segment → Bool
unfolding string_eq
overlap [] [] = true
overlap [] (seg ∷ q) = false
overlap (seg ∷ p) [] = false
overlap (lit a ∷ p) (lit b ∷ q) = let rest = overlap p q in if a == b then rest else false
overlap (lit a ∷ p) (var ∷ q) = overlap p q
overlap (var ∷ p) (lit b ∷ q) = overlap p q
overlap (var ∷ p) (var ∷ q) = overlap p q

fits-lit :
    (a part : String) (p : List Segment) (path : List String)
    → fits (lit a ∷ p) (part ∷ path) ≡ true
    → (a ≡ part) × (fits p path ≡ true)
unfolding fits match_path
fits-lit a part p path h = elim (Bool-cases (a == part)) [
  | inl yes_it ↦ (==_eq a part yes_it, rw (fits, match_path, yes_it) at h)
  | inr differs ↦ ground (arith, rw (fits, match_path, differs) at h)
]

fits-var :
    (part : String) (p : List Segment) (path : List String)
    → fits (var ∷ p) (part ∷ path) ≡ true
    → fits p path ≡ true
unfolding fits match_path
fits-var part p path h = ground (arith, h)

fits-overlap :
    (p q : List Segment) (path : List String)
    → fits p path ≡ true
    → fits q path ≡ true
    → overlap p q ≡ true
unfolding overlap fits match_path
fits-overlap [] [] path h k = refl
fits-overlap [] (seg ∷ q) [] h k = ground (arith, k)
fits-overlap [] (seg ∷ q) (part ∷ path) h k = ground (arith, h)
fits-overlap (seg ∷ p) [] [] h k = ground (arith, h)
fits-overlap (seg ∷ p) [] (part ∷ path) h k = ground (arith, k)
fits-overlap (seg ∷ p) (tok ∷ q) [] h k = ground (arith, h)
fits-overlap (lit a ∷ p) (lit b ∷ q) (part ∷ path) h k =
    let (one, rest) = fits-lit a part p path h in
    let (other, more) = fits-lit b part q path k in
    let both : (a == b) ≡ true = subst (λ x. (a == x) ≡ true) (one ∙ sym other) (==_refl a) in
    rw both (fits-overlap p q path rest more)
fits-overlap (lit a ∷ p) (var ∷ q) (part ∷ path) h k =
    fits-overlap p q path (fits-lit a part p path h).1 (fits-var part q path k)
fits-overlap (var ∷ p) (lit b ∷ q) (part ∷ path) h k =
    fits-overlap p q path (fits-var part p path h) (fits-lit b part q path k).1
fits-overlap (var ∷ p) (var ∷ q) (part ∷ path) h k =
    fits-overlap p q path (fits-var part p path h) (fits-var part q path k)

-- No request is answered by two routes of the list.
abbrev apart : {S : Type 0} → Route S → List (Route S) → Bool
apart r [] = true
apart r (q ∷ qs) = not (same r.method q.method && overlap r.pattern q.pattern) && apart r qs

abbrev all_apart : {S : Type 0} → List (Route S) → Bool
all_apart [] = true
all_apart (r ∷ rs) = apart r rs && all_apart rs

routes_apart : {S : Type 0} (st : ForgeState S) → all_apart (routes st) ≡ true
unfolding overlap
routes_apart st = refl

both_true : (a b : Bool) → (a && b) ≡ true → (a ≡ true) × (b ≡ true)
both_true a b h = (ground (arith, h), ground (arith, h))

same_both : (m n l : Method) → same m l ≡ true → same n l ≡ true → same m n ≡ true
same_both m n l h k = ground (arith, h, k)

clash :
    {S : Type 0} (req : HttpRequest) (r q : Route S)
    → answers req r ≡ true
    → answers req q ≡ true
    → (same r.method q.method && overlap r.pattern q.pattern) ≡ true
clash req r q h k =
    let (p, m) = both_true (fits r.pattern req.path) (same r.method req.method) h in
    let (p1, m1) = both_true (fits q.pattern req.path) (same q.method req.method) k in
    rw (same_both r.method q.method req.method m m1, fits-overlap r.pattern q.pattern req.path p p1)
      refl

apart-answering :
    {S : Type 0} (req : HttpRequest) (r : Route S) (rs : List (Route S))
    → apart r rs ≡ true
    → answers req r ≡ true
    → answering req rs ≡ 0
apart-answering req r [] h k = refl
apart-answering req r (q ∷ qs) h k =
    let (free, rest) =
      both_true (not (same r.method q.method && overlap r.pattern q.pattern)) (apart r qs) h in
    elim (Bool-cases (answers req q)) [
      | inl hit ↦ absurd (true≢false (sym free ∙ ap not (clash req r q k hit)))
      | inr miss ↦ rw miss (omega (arith, apart-answering req r qs rest k))
    ]

all_apart-answering :
    {S : Type 0} (req : HttpRequest) (rs : List (Route S))
    → all_apart rs ≡ true
    → answering req rs ≤ 1
all_apart-answering req [] h = omega arith
all_apart-answering req (r ∷ rs) h =
    let (free, rest) = both_true (apart r rs) (all_apart rs) h in
    elim (Bool-cases (answers req r)) [
      | inl hit ↦ rw (hit, apart-answering req r rs free hit) (omega arith)
      | inr miss ↦ rw miss (omega (arith, all_apart-answering req rs rest))
    ]

answering-Perm :
    {S : Type 0} (req : HttpRequest) (rs qs : List (Route S))
    → Permᴰ rs qs
    → answering req rs ≡ answering req qs
answering-Perm req _ _ Permᴰ.nil = refl
answering-Perm req _ _ (Permᴰ.cons e d) =
    ap₂ (λ r n. one (answers req r) + n) e (answering-Perm req _ _ d)
answering-Perm req _ _ (Permᴰ.swap {l = l} e f) =
    ap₂ (λ x y. one (answers req x) + (one (answers req y) + answering req l)) e f ∙ omega arith
answering-Perm req _ _ (Permᴰ.trans d f) = answering-Perm req _ _ d ∙ answering-Perm req _ _ f

-- Where the first route the others do not matter; where it does not, they decide.
dispatch-hit :
    {S : Type 0} (unrouted : ℕ) (req : HttpRequest) (r : Route S) (rs qs : List (Route S)) (s : S)
    → answers req r ≡ true
    → dispatch unrouted (r ∷ rs) req s ≡ dispatch unrouted (r ∷ qs) req s
unfolding dispatch fits
dispatch-hit unrouted req r rs qs s h =
    let (found, right) = both_true (fits r.pattern req.path) (same r.method req.method) h in
    elim (Option-cases (match_path r.pattern req.path)) [
      | inl m ↦ absurd (true≢false (sym found ∙ rw (fits, m) refl))
      | inr (ids, m) ↦ rw (dispatch, m, right) refl
    ]

dispatch-miss :
    {S : Type 0} (unrouted : ℕ) (req : HttpRequest) (r : Route S) (rs : List (Route S)) (s : S)
    → answers req r ≡ false
    → dispatch unrouted (r ∷ rs) req s ≡ dispatch unrouted rs req s
unfolding dispatch fits
dispatch-miss unrouted req r rs s h = elim (Option-cases (match_path r.pattern req.path)) [
  | inl m ↦ rw (dispatch, m) refl
  | inr (ids, m) ↦
      let wrong : same r.method req.method ≡ false = ground (arith, rw (fits, m) at h) in
      rw (dispatch, m, wrong) refl
]

dispatch-Perm :
    {S : Type 0} (unrouted : ℕ) (req : HttpRequest) (rs qs : List (Route S)) (s : S)
    → Permᴰ rs qs
    → answering req rs ≤ 1
    → dispatch unrouted rs req s ≡ dispatch unrouted qs req s
unfolding dispatch
dispatch-Perm unrouted req _ _ s Permᴰ.nil h = refl
dispatch-Perm unrouted req _ _ s (Permᴰ.cons {a = a} {l₁ = l₁} {l₂ = l₂} e d) h =
    elim (Bool-cases (answers req a)) [
      | inl hit ↦ dispatch-hit unrouted req a l₁ l₂ s hit
      | inr miss ↦
          dispatch-miss unrouted req a l₁ s miss
          ∙ dispatch-Perm unrouted req l₁ l₂ s d (omega (arith, rw miss at h))
          ∙ sym (dispatch-miss unrouted req a l₂ s miss)
    ]
    ∙ ap (λ r. dispatch unrouted (r ∷ l₂) req s) e
dispatch-Perm unrouted req _ _ s (Permᴰ.swap {a = a} {b = b} {l = l} e f) h =
    elim (Bool-cases (answers req a)) [
      | inl hit ↦ elim (Bool-cases (answers req b)) [
        | inl too ↦ ground (arith, rw (hit, too) at h)
        | inr miss ↦
            dispatch-hit unrouted req a (b ∷ l) l s hit
            ∙ sym (dispatch-miss unrouted req b (a ∷ l) s miss)
      ]
      | inr miss ↦ dispatch-miss unrouted req a (b ∷ l) s miss ∙ elim (Bool-cases (answers req b)) [
        | inl hit ↦ dispatch-hit unrouted req b l (a ∷ l) s hit
        | inr missed ↦
            dispatch-miss unrouted req b l s missed
            ∙ sym (dispatch-miss unrouted req a l s miss)
            ∙ sym (dispatch-miss unrouted req b (a ∷ l) s missed)
      ]
    ]
    ∙ ap₂ (λ x y. dispatch unrouted (x ∷ y ∷ l) req s) f e
dispatch-Perm unrouted req _ _ s (Permᴰ.trans {l₁ = l₁} {l₂ = l₂} {l₃ = l₃} d f) h =
    dispatch-Perm unrouted req l₁ l₂ s d h
    ∙ dispatch-Perm unrouted req l₂ l₃ s f (subst (λ n. n ≤ 1) (answering-Perm req l₁ l₂ d) h)

-- However the routes are ordered when they are included, the same handler answers a request that
-- some route by any framework that calls the handler of the only route that does.
pub serve-Perm :
    {S : Type 0} (st : ForgeState S) (router : Router S) (rs : List (Route S)) (req : HttpRequest)
    (s : S)
    → IsRouter router
    → Permᴰ (routes st) rs
    → 1 ≤ answering req (routes st)
    → serve st router req s ≡ router rs req s
unfolding serve
serve-Perm st router rs req s rule perm some_one =
    let most = all_apart-answering req (routes st) (routes_apart st) in
    let alone : answering req (routes st) ≡ 1 = omega (arith, most, some_one) in
    rule (routes st) req s alone
    ∙ dispatch-Perm 404 req (routes st) rs s perm most
    ∙ sym (rule rs req s (sym (answering-Perm req (routes st) rs perm) ∙ alone))
