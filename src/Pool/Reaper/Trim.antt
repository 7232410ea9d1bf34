-- ===== src/Pool/Reaper/Trim.antt =====
-- What a pass of the reaper does that nobody disturbs.
use mathlib.Core.List.{append-nil, append_assoc, map-append}
use xforgebox.Base.{
  sym, ◌∙◌, map, ℕ, zero, suc, ◌+◌, ◌-◌, ◌≤◌, ◌≡◌, refl, ap, String, Bool, false, some, List, [],
  ◌∷◌, ◌++◌, arith, length, take, drop, string_eq, keep_if, max, not, Bool-cases, inl, inr, All,
  length-append, length-take, length-keep_if-le, take-append-drop,
}
use xforgebox.Base.Counting.{count, hit, count-nil, count-cons, count-append}
use xforgebox.Models.{PoolConfig, EnvironmentHandle}
use xforgebox.Pool.Defs.{IdleEntry, SubPool, total, warm_needed, warm_put, ids}
use xforgebox.Pool.Reaper.{
  Pass, quiet, insert_youngest, youngest_first, is_expired, await_destroy, drop_front, age_out,
  destroy_all, keep_target, trim, warm_rounds, warm, reap,
}

count-insert_youngest :
    (x : String) (e : IdleEntry) (es : List IdleEntry)
    → count x (ids (insert_youngest e es)) ≡ hit x e.env.id + count x (ids es)
unfolding insert_youngest
count-insert_youngest x e [] = count-cons x e.env.id []
count-insert_youngest x e (y ∷ es) = ground (
  arith,
  count-insert_youngest x e es,
  count-cons x e.env.id (ids (y ∷ es)),
  count-cons x y.env.id (ids es),
  count-cons x y.env.id (ids (insert_youngest e es)),
)

pub count-youngest_first :
    (x : String) (es : List IdleEntry) → count x (ids (youngest_first es)) ≡ count x (ids es)
unfolding youngest_first
count-youngest_first x [] = refl
count-youngest_first x (e ∷ es) = omega (
  arith,
  count-insert_youngest x e (youngest_first es),
  count-youngest_first x es,
  count-cons x e.env.id (ids es),
)

-- The quiet loop over `kept`: the entries that have not expired, and those that have.
module _ (expired : IdleEntry → Bool) where
  age_out-survivors :
      (kept : List IdleEntry) (p : Pass)
      → (age_out quiet expired kept p).1 ≡ keep_if (λ e. not (expired e)) kept
  unfolding age_out
  age_out-survivors [] p = refl
  age_out-survivors (e ∷ kept) p = elim (Bool-cases (expired e)) [
    | inl old ↦ rw (old, age_out) (age_out-survivors kept _)
    | inr young ↦ rw (young, age_out) (ap (◌∷◌ e) (age_out-survivors kept p))
  ]

  -- The sub-pool but for its queue, and the environments handed to the driver.
  age_out-rest :
      (kept : List IdleEntry) (p : Pass)
      → let q = (age_out quiet expired kept p).0 in
        (q.sp.in_use ≡ p.sp.in_use)
        × (q.sp.config ≡ p.sp.config)
        × (q.destroy_calls ≡ p.destroy_calls ++ ids (keep_if expired kept))
  unfolding age_out await_destroy drop_front
  age_out-rest [] p = (refl, refl, sym (append-nil p.destroy_calls))
  age_out-rest (e ∷ kept) p = elim (Bool-cases (expired e)) [
    | inl old ↦
        rw (old, age_out)
          (let (a, b, c) = age_out-rest kept (await_destroy quiet e.env.id (drop_front p)) in
            (a, b, c ∙ append_assoc p.destroy_calls (e.env.id ∷ []) (ids (keep_if expired kept))))
    | inr young ↦ rw (young, age_out) (age_out-rest kept p)
  ]

destroy_all-rest :
    (dead : List IdleEntry) (p : Pass)
    → let q = destroy_all quiet dead p in
      (q.sp ≡ p.sp) × (q.destroy_calls ≡ p.destroy_calls ++ ids dead)
unfolding destroy_all await_destroy
destroy_all-rest [] p = (refl, sym (append-nil p.destroy_calls))
destroy_all-rest (e ∷ dead) p =
    let (a, b) = destroy_all-rest dead (await_destroy quiet e.env.id p) in
    (a, b ∙ append_assoc p.destroy_calls (e.env.id ∷ []) (ids dead))

pub All-keep_if :
    (expired : IdleEntry → Bool) (es : List IdleEntry)
    → All (λ e. expired e ≡ false) (keep_if (λ e. not (expired e)) es)
All-keep_if expired [] = tt
All-keep_if expired (e ∷ es) = elim (Bool-cases (expired e)) [
  | inl old ↦ rw old (All-keep_if expired es)
  | inr young ↦ rw young (young, All-keep_if expired es)
]

count-split :
    (expired : IdleEntry → Bool) (x : String) (es : List IdleEntry)
    → count x (ids (keep_if expired es)) + count x (ids (keep_if (λ e. not (expired e)) es))
      ≡ count x (ids es)
count-split expired x [] = omega (arith, count-nil x)
count-split expired x (e ∷ es) = elim (Bool-cases (expired e)) [
  | inl old ↦ rw old (
      omega (
        arith,
        count-split expired x es,
        count-cons x e.env.id (ids es),
        count-cons x e.env.id (ids (keep_if expired es)),
      ))
  | inr young ↦ rw young (
      omega (
        arith,
        count-split expired x es,
        count-cons x e.env.id (ids es),
        count-cons x e.env.id (ids (keep_if (λ a. not (expired a)) es)),
      ))
]

nil_of_length : (es : List IdleEntry) → length es ≤ 0 → es ≡ []
nil_of_length [] h = refl
nil_of_length (e ∷ es) h = absurd (omega arith)

module _ (now : ℕ) (sp : SubPool) where
  abbrev pub drained : List IdleEntry
  drained = youngest_first sp.idle

  abbrev pub kept : List IdleEntry
  kept = take (keep_target sp) drained

  abbrev pub dead : List IdleEntry
  dead = drop (keep_target sp) drained

  -- What a quiet pass keeps and gives up, in closed form.
  pub trim_lem :
      let q = trim quiet now sp in
      (q.sp.idle ≡ keep_if (λ e. not (is_expired now sp e)) kept)
      × (q.sp.in_use ≡ sp.in_use)
      × (q.sp.config ≡ sp.config)
      × (q.destroy_calls ≡ ids (keep_if (is_expired now sp) kept) ++ ids dead)
  unfolding trim
  trim_lem =
      let expired = is_expired now sp in
      let p₀ : Pass = record { sp = record sp { idle = kept }; destroy_calls = []; awaits = 0 } in
      let aged = age_out quiet expired kept p₀ in
      let p₁ : Pass = record aged.0 { sp = record aged.0.sp { idle = aged.1 } } in
      let (same, gone) = destroy_all-rest dead p₁ in
      let (a, b, c) = age_out-rest expired kept p₀ in
      (
        ap (λ (s : SubPool). s.idle) same ∙ age_out-survivors expired kept p₀,
        ap (λ (s : SubPool). s.in_use) same ∙ a,
        ap (λ (s : SubPool). s.config) same ∙ b,
        gone ∙ ap (λ (l : List String). l ++ ids dead) c,
      )

  -- In a pass that nobody disturbs each idle environment stays idle or is handed to
  -- `destroy_environment`, once, and no other is. (What the driver makes of the call is not stated: the
  -- pass suppresses its exceptions.)
  pub trim_accounts :
      (x : String)
      → let q = trim quiet now sp in
        count x (ids q.sp.idle) + count x q.destroy_calls ≡ count x (ids sp.idle)
  trim_accounts x =
      let (a, _, _, d) = trim_lem in
      let expired = is_expired now sp in
      omega (
        arith,
        ap (λ (l : List IdleEntry). count x (ids l)) a,
        ap (count x) d,
        count-append x (ids (keep_if expired kept)) (ids dead),
        count-split expired x kept,
        count-youngest_first x sp.idle,
        ap (λ (l : List IdleEntry). count x (ids l)) (take-append-drop (keep_target sp) drained),
        ap (count x) (map-append (λ (e : IdleEntry). e.env.id) kept dead),
        count-append x (ids kept) (ids dead),
      )

  -- After a pass that nobody disturbs nothing that has outlived its time is idle, and no more are
  -- idle than `min_idle` less those in use.
  pub trim_keeps_young :
      let q = trim quiet now sp in
      All (λ e. is_expired now sp e ≡ false) q.sp.idle
      × (length q.sp.idle ≤ sp.config.min_idle - length sp.in_use)
  unfolding keep_target
  trim_keeps_young =
      let (a, _, _, _) = trim_lem in
      (
        rw a (All-keep_if (is_expired now sp) kept),
        rw a (
            omega (
              arith,
              length-keep_if-le (λ (e : IdleEntry). not (is_expired now sp e)) kept,
              length-take (keep_target sp) drained,
            )),
      )

  -- With at least `min_idle` environments in use, a pass that nobody disturbs hands every idle one to
  -- `destroy_environment`, whatever its age.
  pub trim_ignores_age :
      sp.config.min_idle ≤ length sp.in_use
      → let q = trim quiet now sp in
        (q.sp.idle ≡ []) × ((x : String) → count x q.destroy_calls ≡ count x (ids sp.idle))
  trim_ignores_age h =
      let none_left : (trim quiet now sp).sp.idle ≡ [] =
        nil_of_length _ (omega (arith, trim_keeps_young.1)) in
      (
        none_left,
        λ x. omega (
          arith,
          trim_accounts x,
          ap (λ (l : List IdleEntry). count x (ids l)) none_left,
          count-nil x,
        ),
      )

-- The rounds of an undisturbed `_warm`, none of which fails: one more idle environment each.
warm_rounds-idle :
    (n : ℕ) (boots : List (EnvironmentHandle × ℕ)) (p : Pass)
    → n ≤ length boots
    → let q = warm_rounds quiet n (map (λ b. some b) boots) p in
      (length q.sp.idle ≡ length p.sp.idle + n) × (q.sp.in_use ≡ p.sp.in_use)
unfolding warm_rounds warm_put
warm_rounds-idle zero boots p h = (omega arith, refl)
warm_rounds-idle (suc n) [] p h = absurd (omega arith)
warm_rounds-idle (suc n) ((env, now) ∷ boots) p h =
    let (a, b) =
      warm_rounds-idle n boots (record p { sp = warm_put env now p.sp; awaits = suc p.awaits })
        (omega arith) in
    (omega (arith, a, length-append p.sp.idle (record { env = env; idle_since = now } ∷ [])), b)

-- After a pass that nobody disturbs and whose creations succeed, the sub-pool has exactly
-- `min_idle` environments, or those in use if they are more.
pub reap_settles :
    (now : ℕ) (boots : List (EnvironmentHandle × ℕ)) (sp : SubPool)
    → sp.config.min_idle ≤ length boots
    → total (reap quiet now (map (λ b. some b) boots) sp).sp
      ≡ max sp.config.min_idle (length sp.in_use)
unfolding reap warm warm_needed total
reap_settles now boots sp h =
    let q = trim quiet now sp in
    let (_, b, c, _) = trim_lem now sp in
    let (u, v) =
      warm_rounds-idle (q.sp.config.min_idle - (length q.sp.idle + length q.sp.in_use)) boots q
        (omega (arith, ap (λ (k : PoolConfig). k.min_idle) c)) in
    omega (
      arith,
      u,
      ap length v,
      ap length b,
      ap (λ (k : PoolConfig). k.min_idle) c,
      (trim_keeps_young now sp).1,
    )
