-- ===== src/Events/Bus/Laws.antt =====
-- What a subscriber receives.
use xforgebox.Base.{
  ℕ, zero, suc, ◌+◌, ◌-◌, ◌≤◌, ◌<◌, ◌≡◌, refl, ap, sym, subst, ◌∙◌, true, false, List, [], ◌∷◌,
  ◌++◌, append-nil, append_assoc, arith, ltb, length, take, nat_eq, keep_if, length-append,
  Bool-cases, ltb→lt, inl, inr,
}
use xforgebox.Models.{ForgeEvent}
use xforgebox.Events.Bus.{EventBus, Subscription, wants_event, offer, publish}

-- Events published one after the other, at one subscription and at the whole bus.
unfoldable pub offer_all : ℕ → List ForgeEvent → Subscription → Subscription
offer_all size [] sub = sub
offer_all size (ev ∷ evs) sub = offer_all size evs (offer size ev sub)

unfoldable pub publish_all : List ForgeEvent → EventBus → EventBus
publish_all [] bus = bus
publish_all (ev ∷ evs) bus = publish_all evs (publish ev bus)

-- The events among these that a subscription wants.
abbrev pub wanted : Subscription → List ForgeEvent → List ForgeEvent
wanted sub = keep_if (wants_event sub)

-- An offer on the branches of `put_nowait`.
offer-skips :
    (size : ℕ) (ev : ForgeEvent) (sub : Subscription)
    → wants_event sub ev ≡ false
    → offer size ev sub ≡ sub
unfolding offer
offer-skips size ev sub off = ground (arith)

offer-puts :
    (size : ℕ) (ev : ForgeEvent) (sub : Subscription)
    → wants_event sub ev ≡ true
    → length sub.queue < size
    → offer size ev sub ≡ record sub { queue = sub.queue ++ ev ∷ [] }
unfolding offer
offer-puts size ev sub on room = ground (arith)

offer-drops :
    (size : ℕ) (ev : ForgeEvent) (sub : Subscription)
    → wants_event sub ev ≡ true
    → 0 < size
    → length sub.queue ≡ size
    → offer size ev sub ≡ record sub { lost = sub.lost + 1 }
unfolding offer
offer-drops size ev sub on pos full = ground (arith)

take-nil {ℓ} : {A : Type ℓ} (n : ℕ) → take {A = A} n [] ≡ []
take-nil zero = refl
take-nil (suc n) = refl

-- One more taken, where there is room for it.
take-room {ℓ} :
    {A : Type ℓ} (n k : ℕ) (x : A) (xs : List A)
    → k < n
    → take (n - k) (x ∷ xs) ≡ x ∷ take (n - (k + 1)) xs
take-room n k x xs room =
    let one_more : n - k ≡ suc (n - (k + 1)) = omega arith in ap (λ m. take m (x ∷ xs)) one_more

-- What a subscription wants is settled by its predicate.
wanted-queue :
    (sub : Subscription) (q : List ForgeEvent) (evs : List ForgeEvent)
    → wanted (record sub { queue = q }) evs ≡ wanted sub evs
unfolding wants_event
wanted-queue sub q evs = refl

wanted-lost :
    (sub : Subscription) (k : ℕ) (evs : List ForgeEvent)
    → wanted (record sub { lost = k }) evs ≡ wanted sub evs
unfolding wants_event
wanted-lost sub k evs = refl

-- The outcome of publishing to a subscription that nobody reads.
unfoldable pub IsFilled : ℕ → Subscription → List ForgeEvent → Subscription → Type 0
IsFilled size sub want after =
    (after.queue ≡ sub.queue ++ take (size - length sub.queue) want)
    × (length after.queue + after.lost ≡ length sub.queue + sub.lost + length want)
    × (length after.queue ≤ size)

IsFilled-put :
    (size : ℕ) (ev : ForgeEvent) (want : List ForgeEvent) (sub after : Subscription)
    → length sub.queue < size
    → IsFilled size (record sub { queue = sub.queue ++ ev ∷ [] }) want after
    → IsFilled size sub (ev ∷ want) after
unfolding IsFilled
IsFilled-put size ev want sub after room (queue_eq, count_eq, le) =
    let len : length (sub.queue ++ ev ∷ []) ≡ length sub.queue + 1 =
      length-append sub.queue (ev ∷ []) in
    (
      queue_eq
          ∙ append_assoc sub.queue (ev ∷ []) (take (size - length (sub.queue ++ ev ∷ [])) want)
          ∙ rw (len, take-room size (length sub.queue) ev want room),
      omega (arith, count_eq, len),
      le,
    )

IsFilled-lost :
    (size : ℕ) (ev : ForgeEvent) (want : List ForgeEvent) (sub after : Subscription)
    → length sub.queue ≡ size
    → IsFilled size (record sub { lost = sub.lost + 1 }) want after
    → IsFilled size sub (ev ∷ want) after
unfolding IsFilled
IsFilled-lost size ev want sub after full (queue_eq, count_eq, le) =
    let none_left : size - length sub.queue ≡ 0 = omega (arith, full) in
    (queue_eq ∙ rw none_left, omega (arith, count_eq), le)

-- A subscription that nobody reads, with `queue_size` not 0: it gets the first events that it
-- wants, in order, as far as there is room, and counts the rest as lost.
pub offer_all_fills :
    (size : ℕ) (evs : List ForgeEvent) (sub : Subscription)
    → 0 < size
    → length sub.queue ≤ size
    → IsFilled size sub (wanted sub evs) (offer_all size evs sub)
unfolding IsFilled offer_all
offer_all_fills size [] sub pos fits =
    rw (take-nil (size - length sub.queue), append-nil sub.queue) (refl, omega arith, fits)
offer_all_fills size (ev ∷ evs) sub pos fits = elim (Bool-cases (wants_event sub ev)) [
  | inl on ↦ elim (Bool-cases (ltb (length sub.queue) size)) [
    | inl room ↦
        let lt : length sub.queue < size = ltb→lt _ _ room in
        let put = record sub { queue = sub.queue ++ ev ∷ [] } in
        let one_more : length put.queue ≡ length sub.queue + 1 =
          length-append sub.queue (ev ∷ []) in
        offered (offer-puts size ev sub on lt) (wanted-on on) (
          IsFilled-put size ev (wanted sub evs) sub (offer_all size evs put) lt (
            rw (sym (wanted-queue sub put.queue evs))
              (offer_all_fills size evs put pos (omega (arith, lt, one_more)))))
    | inr full ↦
        let at : length sub.queue ≡ size = ground (arith, full, fits) in
        let dropped = record sub { lost = sub.lost + 1 } in
        offered (offer-drops size ev sub on pos at) (wanted-on on) (
          IsFilled-lost size ev (wanted sub evs) sub (offer_all size evs dropped) at (
            rw (sym (wanted-lost sub (sub.lost + 1) evs))
              (offer_all_fills size evs dropped pos fits)))
  ]
  | inr off ↦
      offered (offer-skips size ev sub off) (wanted-off off) (offer_all_fills size evs sub pos fits)
]
  where
    wanted-on : wants_event sub ev ≡ true → wanted sub (ev ∷ evs) ≡ ev ∷ wanted sub evs
    wanted-on on = rw on

    wanted-off : wants_event sub ev ≡ false → wanted sub (ev ∷ evs) ≡ wanted sub evs
    wanted-off off = rw off

    offered :
        {s : Subscription} {want : List ForgeEvent}
        → offer size ev sub ≡ s
        → wanted sub (ev ∷ evs) ≡ want
        → IsFilled size sub want (offer_all size evs s)
        → IsFilled size sub (wanted sub (ev ∷ evs)) (offer_all size (ev ∷ evs) sub)
    offered {s = s} e w f =
        subst (λ s. IsFilled size sub (wanted sub (ev ∷ evs)) (offer_all size evs s)) (sym e)
          (subst (λ xs. IsFilled size sub xs (offer_all size evs s)) (sym w) f)
