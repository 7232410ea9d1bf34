-- ===== src/Pool/Reaper/Races.antt =====
-- What a pass of the reaper can do to tasks that run at its `await`s.
use mathlib.Core.List.{append-nil, append_assoc}
use xforgebox.Pool.Reaper.Trim.{count-youngest_first}
use xforgebox.Base.{
  ℕ, zero, suc, ◌+◌, ◌≡◌, refl, ap, sym, take-append-drop, ◌∙◌, String, Bool, true, false, List, [],
  ◌∷◌, ◌++◌, arith, take, drop, string_eq, nat_eq, ==_refl, contains,
}
use xforgebox.Base.Counting.{count, count-nil, count-cons, count-discard, contains-add}
use xforgebox.Models.{EnvironmentHandle}
use xforgebox.Pool.Defs.{IdleEntry, SubPool, attempt, release, ids}
use xforgebox.Pool.Reaper.{
  Pass, Others, youngest_first, is_expired, await_destroy, drop_front, age_out, destroy_all,
  keep_target, trim,
}

-- The other tasks act once, at the first `await` of the pass.
abbrev pub at_first : (SubPool → SubPool) → Others
at_first act zero sp = act sp
at_first act (suc k) sp = sp

-- After the first `await` nobody disturbs the rest.
destroy_all-late :
    (act : SubPool → SubPool) (dead : List IdleEntry) (p : Pass) (n : ℕ)
    → p.awaits ≡ suc n
    → (destroy_all (at_first act) dead p).sp ≡ p.sp
unfolding destroy_all await_destroy
destroy_all-late act [] p n e = refl
destroy_all-late act (d ∷ dead) p n e =
    destroy_all-late act dead (await_destroy (at_first act) d.env.id p) (suc n) (ap suc e)
    ∙ ap (λ (k : ℕ). at_first act k p.sp) e

destroy_all-destroy_calls :
    (others : Others) (dead : List IdleEntry) (p : Pass)
    → (destroy_all others dead p).destroy_calls ≡ p.destroy_calls ++ ids dead
unfolding destroy_all await_destroy
destroy_all-destroy_calls others [] p = sym (append-nil p.destroy_calls)
destroy_all-destroy_calls others (d ∷ dead) p =
    destroy_all-destroy_calls others dead (await_destroy others d.env.id p)
    ∙ append_assoc p.destroy_calls (d.env.id ∷ []) (ids dead)

-- A task that asks for a lease.
abbrev pub leases : String → SubPool → SubPool
leases placeholder sp = (attempt placeholder sp).1

age_out-young_young_old :
    (others : Others) (expired : IdleEntry → Bool) (a b c : IdleEntry) (p : Pass)
    → expired a ≡ false
    → expired b ≡ false
    → expired c ≡ true
    → age_out others expired (a ∷ b ∷ c ∷ []) p
      ≡ (await_destroy others c.env.id (drop_front p), a ∷ b ∷ [])
unfolding age_out
age_out-young_young_old others expired a b c p ya yb oc = ground arith

module _ (now : ℕ) (sp : SubPool) (a b c : IdleEntry)
    (spared : take (keep_target sp) (youngest_first sp.idle) ≡ a ∷ b ∷ c ∷ [])
    (a_young : is_expired now sp a ≡ false) (b_young : is_expired now sp b ≡ false)
    (c_old : is_expired now sp c ≡ true) where
  trim-at_first :
      (act : SubPool → SubPool)
      → let q = act (record sp { idle = b ∷ c ∷ [] }) in
        (trim (at_first act) now sp).sp ≡ record q { idle = a ∷ b ∷ [] }
  unfolding trim await_destroy drop_front
  trim-at_first act =
      rw
        (
          spared,
          age_out-young_young_old (at_first act) (is_expired now sp) a b c _ a_young b_young c_old,
        )
        (destroy_all-late act (drop (keep_target sp) (youngest_first sp.idle)) _ 0 refl)

  trim_destroys :
      (others : Others)
      → (trim others now sp).destroy_calls
        ≡ c.env.id ∷ ids (drop (keep_target sp) (youngest_first sp.idle))
  unfolding trim await_destroy drop_front
  trim_destroys others =
      rw (spared, age_out-young_young_old others (is_expired now sp) a b c _ a_young b_young c_old)
        (destroy_all-destroy_calls others (drop (keep_target sp) (youngest_first sp.idle)) _)

  -- The four parts that the sorted queue falls into.
  count-parts :
      (x : String)
      → count x (a.env.id ∷ b.env.id ∷ [])
          + count x (c.env.id ∷ ids (drop (keep_target sp) (youngest_first sp.idle)))
        ≡ count x (ids sp.idle)
  count-parts x =
      let rest = drop (keep_target sp) (youngest_first sp.idle) in
      omega (
        arith,
        count-youngest_first x sp.idle,
        ap (λ (l : List IdleEntry). count x (ids l))
            (take-append-drop (keep_target sp) (youngest_first sp.idle)),
        ap (λ (l : List IdleEntry). count x (ids (l ++ rest))) spared,
        count-cons x a.env.id (b.env.id ∷ []),
        count-cons x b.env.id [],
        count-nil x,
        count-cons x a.env.id (b.env.id ∷ c.env.id ∷ ids rest),
        count-cons x b.env.id (c.env.id ∷ ids rest),
      )

  -- Where a pass spares two young entries and then finds an expired one, a task that asks for a
  -- lease while that one is being destroyed is given the second, and the pass puts it back into
  -- the queue: at its end the environment is both idle and in use.
  pub double_lease :
      (placeholder : String)
      → let q = (trim (at_first (leases placeholder)) now sp).sp in
        (contains q.in_use b.env.id ≡ true) × (contains (ids q.idle) b.env.id ≡ true)
  unfolding attempt
  double_lease placeholder =
      rw trim-at_first (contains-add b.env.id sp.in_use, ground (arith, ==_refl b.env.id))

  -- An environment that is released while the expired one is being destroyed is forgotten: it is
  -- neither idle nor in use afterwards, and the pass has not handed it to the driver.
  pub forgotten_release :
      (env : EnvironmentHandle) (at : ℕ)
      → count env.id (ids sp.idle) ≡ 0
      → let q = trim (at_first (release env true at)) now sp in
        (count env.id q.sp.in_use ≡ 0)
        × (count env.id (ids q.sp.idle) ≡ 0)
        × (count env.id q.destroy_calls ≡ 0)
  unfolding release
  forgotten_release env at busy = (
    rw trim-at_first (ground (arith, count-discard env.id env.id sp.in_use)),
    rw trim-at_first (omega (arith, count-parts env.id)),
    rw trim_destroys (omega (arith, count-parts env.id)),
  )
