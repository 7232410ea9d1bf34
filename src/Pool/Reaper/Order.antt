-- ===== src/Pool/Reaper/Order.antt =====
-- Which entries a pass of the reaper leaves idle: the youngest.
use xforgebox.Base.{
  ℕ, zero, suc, ◌≤◌, ◌≡◌, ◌⊎◌, sym, ap, ◌∙◌, subst, List, [], ◌∷◌, ◌++◌, Bool, true, false, not,
  arith, leb, leb→le, take, drop, take-append-drop, keep_if, Bool-cases, inl, inr, All, string_eq,
}
use xforgebox.Base.Counting.{count, count-cons}
use xforgebox.Pool.Defs.{IdleEntry, SubPool, ids}
use xforgebox.Pool.Turns.{hit_self}
use xforgebox.Pool.Reaper.{quiet, insert_youngest, youngest_first, keep_target, is_expired, trim}
use xforgebox.Pool.Reaper.Trim.{trim_lem, All-keep_if, kept, dead}

-- Every entry is no younger than `e`.
abbrev NoYounger : IdleEntry → List IdleEntry → Type 0
NoYounger e es = All (λ x. x.idle_since ≤ e.idle_since) es

abbrev Descends : List IdleEntry → Type 0
Descends [] = Unit {0}
Descends (e ∷ es) = NoYounger e es × Descends es

NoYounger-trans :
    (e f : IdleEntry) (es : List IdleEntry)
    → e.idle_since ≤ f.idle_since
    → NoYounger e es
    → NoYounger f es
NoYounger-trans e f [] h n = tt
NoYounger-trans e f (x ∷ es) h (a, n) = (omega arith, NoYounger-trans e f es h n)

NoYounger-insert :
    (f e : IdleEntry) (es : List IdleEntry)
    → e.idle_since ≤ f.idle_since
    → NoYounger f es
    → NoYounger f (insert_youngest e es)
unfolding insert_youngest
NoYounger-insert f e [] h n = (h, tt)
NoYounger-insert f e (x ∷ es) h n = elim (Bool-cases (leb x.idle_since e.idle_since)) [
  | inl le ↦ rw le (h, n)
  | inr gt ↦ rw gt (n.0, NoYounger-insert f e es h n.1)
]

insert_youngest-Descends :
    (e : IdleEntry) (es : List IdleEntry) → Descends es → Descends (insert_youngest e es)
unfolding insert_youngest
insert_youngest-Descends e [] d = (tt, tt)
insert_youngest-Descends e (x ∷ es) d = elim (Bool-cases (leb x.idle_since e.idle_since)) [
  | inl le ↦ rw le ((leb→le _ _ le, NoYounger-trans x e es (leb→le _ _ le) d.0), d)
  | inr gt ↦ rw gt (NoYounger-insert x e es (ground arith) d.0, insert_youngest-Descends e es d.1)
]

youngest_first-Descends : (es : List IdleEntry) → Descends (youngest_first es)
unfolding youngest_first
youngest_first-Descends [] = tt
youngest_first-Descends (e ∷ es) =
    insert_youngest-Descends e (youngest_first es) (youngest_first-Descends es)

NoYounger-drop :
    (n : ℕ) (e : IdleEntry) (es : List IdleEntry) → NoYounger e es → NoYounger e (drop n es)
NoYounger-drop zero e es h = h
NoYounger-drop (suc n) e [] h = tt
NoYounger-drop (suc n) e (x ∷ es) h = NoYounger-drop n e es h.1

take-drop-NoYounger :
    (n : ℕ) (es : List IdleEntry) → Descends es → All (λ k. NoYounger k (drop n es)) (take n es)
take-drop-NoYounger zero es d = tt
take-drop-NoYounger (suc n) [] d = tt
take-drop-NoYounger (suc n) (e ∷ es) d = (NoYounger-drop n e es d.0, take-drop-NoYounger n es d.1)

module _ {ℓ} (P : IdleEntry → Type ℓ) where
  All-uninserted :
      (e : IdleEntry) (es : List IdleEntry) → All P (insert_youngest e es) → P e × All P es
  unfolding insert_youngest
  All-uninserted e [] h = h
  All-uninserted e (x ∷ es) h = elim (Bool-cases (leb x.idle_since e.idle_since)) [
    | inl le ↦ rw le at h
    | inr gt ↦ let (a, b) = rw gt at h in let (c, d) = All-uninserted e es b in (c, (a, d))
  ]

  -- What holds of all sorted entries holds of all.
  All-unsorted : (es : List IdleEntry) → All P (youngest_first es) → All P es
  unfolding youngest_first
  All-unsorted [] h = tt
  All-unsorted (e ∷ es) h =
      let (a, b) = All-uninserted e (youngest_first es) h in (a, All-unsorted es b)

  All-append : (xs ys : List IdleEntry) → All P xs → All P ys → All P (xs ++ ys)
  All-append [] ys h k = k
  All-append (x ∷ xs) ys h k = (h.0, All-append xs ys h.1 k)

  All-middle : (xs ys : List IdleEntry) (e : IdleEntry) → All P (xs ++ e ∷ ys) → P e
  All-middle [] ys e h = h.0
  All-middle (x ∷ xs) ys e h = All-middle xs ys e h.1

  All-kept : (keep : IdleEntry → Bool) (es : List IdleEntry) → All P es → All P (keep_if keep es)
  All-kept keep [] h = tt
  All-kept keep (e ∷ es) h = elim (Bool-cases (keep e)) [
    | inl stays ↦ rw stays (h.0, All-kept keep es h.1)
    | inr goes ↦ rw goes (All-kept keep es h.1)
  ]

  All-map {κ} :
      (Q : IdleEntry → Type κ) (f : (e : IdleEntry) → P e → Q e) (es : List IdleEntry)
      → All P es
      → All Q es
  All-map Q f [] h = tt
  All-map Q f (e ∷ es) h = (f e h.0, All-map Q f es h.1)

-- An entry has expired, or its id is among those that survive of these.
module _ (expired : IdleEntry → Bool) where
  abbrev Settled : List IdleEntry → IdleEntry → Type 0
  Settled es e = (expired e ≡ true) ⊎ (1 ≤ count e.env.id (ids (keep_if (λ x. not (expired x)) es)))

  Settled-first : (e : IdleEntry) (es : List IdleEntry) → Settled (e ∷ es) e
  Settled-first e es = elim (Bool-cases (expired e)) [
    | inl old ↦ inl old
    | inr young ↦ inr (
        rw young (
          omega (
            arith,
            count-cons e.env.id e.env.id (ids (keep_if (λ x. not (expired x)) es)),
            hit_self e.env.id,
          )))
  ]

  Settled-cons : (es : List IdleEntry) (e x : IdleEntry) → Settled es x → Settled (e ∷ es) x
  Settled-cons es e x (inl old) = inl old
  Settled-cons es e x (inr among) = elim (Bool-cases (expired e)) [
    | inl old ↦ inr (rw old among)
    | inr young ↦ inr (
        rw young (
          omega
            (arith, among, count-cons x.env.id e.env.id (ids (keep_if (λ y. not (expired y)) es)))))
  ]

  All-Settled : (es : List IdleEntry) → All (Settled es) es
  All-Settled [] = tt
  All-Settled (e ∷ es) = (
    Settled-first e es,
    All-map (Settled es) (Settled (e ∷ es)) (Settled-cons es e) es (All-Settled es),
  )

-- Of two entries one of which has expired, that one is the older.
expired_is_older :
    (now : ℕ) (sp : SubPool) (d k : IdleEntry)
    → is_expired now sp d ≡ true
    → is_expired now sp k ≡ false
    → d.idle_since ≤ k.idle_since
unfolding is_expired
expired_is_older now sp d k old young = ground arith

module _ (now : ℕ) (sp : SubPool) where
  alive : List IdleEntry
  alive = keep_if (λ e. not (is_expired now sp e)) (kept now sp)

  -- An entry that is gone is no younger than one that is still there.
  abbrev GoneIsOlder : IdleEntry → IdleEntry → Type 0
  GoneIsOlder k d = (d.idle_since ≤ k.idle_since) ⊎ (1 ≤ count d.env.id (ids alive))

  order_of :
      (k : IdleEntry)
      → NoYounger k (dead now sp)
      → is_expired now sp k ≡ false
      → All (GoneIsOlder k) sp.idle
  unfolding alive
  order_of k first young =
      let older : (d : IdleEntry) → Settled (is_expired now sp) (kept now sp) d → GoneIsOlder k d =
        λ d h. elim h [
          | inl old ↦ inl (expired_is_older now sp d k old young)
          | inr among ↦ inr among
        ] in
      All-unsorted (GoneIsOlder k) sp.idle (
        subst (All (GoneIsOlder k)) (take-append-drop (keep_target sp) (youngest_first sp.idle)) (
          All-append (GoneIsOlder k) (kept now sp) (dead now sp)
            (All-map (Settled (is_expired now sp) (kept now sp)) (GoneIsOlder k) older (kept now sp)
              (All-Settled (is_expired now sp) (kept now sp)))
            (All-map (λ d. d.idle_since ≤ k.idle_since) (GoneIsOlder k) (λ d h. inl h) (dead now sp)
              first)))

  -- In a pass that nobody disturbs, an idle environment that it gives up, for whatever reason, has
  -- been idle at least as long as each one that it leaves idle.
  pub spared_are_youngest :
      (before after left right : List IdleEntry) (d k : IdleEntry)
      → sp.idle ≡ before ++ d ∷ after
      → (trim quiet now sp).sp.idle ≡ left ++ k ∷ right
      → count d.env.id (ids (trim quiet now sp).sp.idle) ≡ 0
      → d.idle_since ≤ k.idle_since
  unfolding alive
  spared_are_youngest before after left right d k was is_left gone =
      let (same, _, _, _) = trim_lem now sp in
      let at : alive ≡ left ++ k ∷ right = sym same ∙ is_left in
      let first : NoYounger k (dead now sp) =
        All-middle (λ e. NoYounger e (dead now sp)) left right k
          (subst (All (λ e. NoYounger e (dead now sp))) at (
            All-kept (λ e. NoYounger e (dead now sp)) (λ e. not (is_expired now sp e)) (kept now sp)
              (take-drop-NoYounger (keep_target sp) _ (youngest_first-Descends sp.idle)))) in
      let young : is_expired now sp k ≡ false =
        All-middle (λ e. is_expired now sp e ≡ false) left right k
          (subst (All (λ e. is_expired now sp e ≡ false)) at
            (All-keep_if (is_expired now sp) (kept now sp))) in
      let older : GoneIsOlder k d =
        All-middle (GoneIsOlder k) before after d
          (subst (All (GoneIsOlder k)) was (order_of k first young)) in
      elim older [
        | inl h ↦ h
        | inr among ↦ absurd (omega (arith, among, gone, ap (λ es. count d.env.id (ids es)) same))
      ]
