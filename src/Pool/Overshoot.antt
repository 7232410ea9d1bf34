-- ===== src/Pool/Overshoot.antt =====
-- How far rounds of `_warm` in src/forge/pool/container_pool.py can take a sub-pool past `max_size`.
use xforgebox.Base.{
  ℕ, suc, some, ◌∙◌, sym, ◌-◌, ◌+◌, ◌≤◌, ◌≡◌, refl, subst, ap, ◌==◌, ==_eq, Bool-cases, inl, inr,
  String, List, [], ◌∷◌, ◌++◌, map, true, false, arith, string_eq, length, length-append, ltb,
  lt→ltb, ◌<◌,
}
use xforgebox.Base.Counting.{
  count, hit, add, discard, count-cons, count-append, count-add, length-add, count-discard,
  length-discard,
}
use xforgebox.Models.{PoolConfig, EnvironmentHandle}
use xforgebox.Pool.Defs.{
  IdleEntry, SubPool, new_subpool, total, warm_needed, warm_put, attempt, created, count_lease, ids,
}
use xforgebox.Pool.Tasks.{Task, lock, booted, advance, enter, wants, creating, leased}
use xforgebox.Pool.Turns.{Unseen, count-ids-snoc, hit_self}
use xforgebox.Pool.System.{System, boot, opens, turn, begins, round, ReachWarm}
use xforgebox.Pool.Progress.{at, drained}

-- No name stands twice.
abbrev pub Distinct : List String → Type 0
Distinct [] = Unit {0}
Distinct (x ∷ xs) = (count x xs ≡ 0) × Distinct xs

Distinct-count : (xs : List String) (x : String) → Distinct xs → count x xs ≤ 1
unfolding count
Distinct-count [] x d = omega arith
Distinct-count (y ∷ ys) x (new, d) = elim (Bool-cases (x == y)) [
  | inl same ↦
      rw same (omega (arith, subst (λ (z : String). count z ys ≡ 0) (sym (==_eq x y same)) new))
  | inr other ↦ rw other (omega (arith, Distinct-count ys x d))
]

abbrev pub names : List EnvironmentHandle → List String
names = map λ e. e.id

module _ (c : PoolConfig) (p : String) (rounds : ℕ) where
  -- The sub-pool when a task has reserved a slot, and when it has its new environment.
  abbrev reserved : SubPool → SubPool
  reserved sp = record sp { idle = []; in_use = add p sp.in_use }

  abbrev grown : EnvironmentHandle → SubPool → SubPool
  grown env sp = created p env 0 0 (reserved sp)

  reserves :
      (sp : SubPool)
      → ltb (0 + length sp.in_use) sp.config.max_size ≡ true
      → advance (wants 0) (lock 0 p) false (drained sp)
        ≡ some record { locked = true; sp = reserved sp; task = creating p 0 }
  unfolding advance enter attempt
  reserves sp room = rw room refl

  -- A task comes, creates an environment and leases it.
  grown-ReachWarm :
      (tasks : List Task) (sp : SubPool) (env : EnvironmentHandle)
      → ReachWarm c (at rounds tasks (drained sp))
      → sp.config ≡ c
      → length sp.in_use < c.max_size
      → count p sp.in_use ≡ 0
      → count env.id (add p sp.in_use) ≡ 0
      → ReachWarm c (at rounds (leased env ∷ tasks) (drained (grown env sp)))
  unfolding advance created count_lease count
  grown-ReachWarm tasks sp env r same room free new =
      let fits : ltb (0 + length sp.in_use) sp.config.max_size ≡ true =
        lt→ltb _ _ (omega (arith, ap (λ (k : PoolConfig). k.max_size) same)) in
      ReachWarm.step
        (ReachWarm.step (ReachWarm.step r (opens 0))
          (turn [] tasks (wants 0) (lock 0 p) _ refl (refl, free) (reserves sp fits)))
        (turn [] tasks (creating p 0) (booted env 0) _ refl (refl, new) refl)

  grown-count :
      (sp : SubPool) (env : EnvironmentHandle) (x : String)
      → count p sp.in_use ≡ 0
      → count env.id (add p sp.in_use) ≡ 0
      → (count x (grown env sp).in_use ≤ hit x env.id + count x sp.in_use)
        × (length (grown env sp).in_use ≡ suc (length sp.in_use))
  unfolding created count_lease
  grown-count sp env x free new =
      let used = discard p (add p sp.in_use) in
      let unused : count env.id used ≡ 0 =
        ground (arith, new, count-discard p env.id (add p sp.in_use)) in
      (
        ground (
          arith,
          count-add env.id x used unused,
          count-discard p x (add p sp.in_use),
          count-add p x sp.in_use free,
        ),
        omega (
          arith,
          length-add env.id used unused,
          length-discard p (add p sp.in_use),
          length-add p sp.in_use free,
          count-add p p sp.in_use free,
          hit_self p,
        ),
      )

  grown-config : (env : EnvironmentHandle) (sp : SubPool) → (grown env sp).config ≡ sp.config
  unfolding created count_lease
  grown-config env sp = refl

  -- Tasks that create one environment after the other, up to `max_size`.
  filled :
      (rest : List String) (envs : List EnvironmentHandle) (tasks : List Task) (sp : SubPool)
      → ReachWarm c (at rounds tasks (drained sp))
      → sp.config ≡ c
      → ((x : String) → count x (p ∷ names envs) + (count x rest + count x sp.in_use) ≤ 1)
      → length sp.in_use + length envs ≡ c.max_size
      → (ts : List Task) × (s : SubPool) × ReachWarm c (at rounds ts (drained s))
        × (length s.in_use ≡ c.max_size)
        × ((x : String) → count x rest + count x s.in_use ≤ 1)
  filled rest [] tasks sp r same fresh size =
      (tasks, sp, r, omega (arith, size), λ x. omega (arith, fresh x))
  filled rest (env ∷ envs) tasks sp r same fresh size =
      let free : count p sp.in_use ≡ 0 =
        omega (arith, fresh p, count-cons p p (names (env ∷ envs)), hit_self p) in
      let new : count env.id (add p sp.in_use) ≡ 0 = omega (
        arith,
        fresh env.id,
        count-cons env.id p (names (env ∷ envs)),
        count-cons env.id env.id (names envs),
        hit_self env.id,
        count-add p env.id sp.in_use free,
      ) in
      filled rest envs (leased env ∷ tasks) (grown env sp)
        (grown-ReachWarm tasks sp env r same (omega (arith, size)) free new)
        (grown-config env sp ∙ same)
        (λ x. omega (
          arith,
          fresh x,
          (grown-count sp env x free new).0,
          count-cons x p (names (env ∷ envs)),
          count-cons x env.id (names envs),
          count-cons x p (names envs),
        ))
        (omega (arith, size, (grown-count sp env p free new).1))

unseen :
    (env : EnvironmentHandle) (spare : List EnvironmentHandle) (w : System)
    → count env.id (names (env ∷ spare)) + (count env.id (ids w.sp.idle) + count env.id w.sp.in_use)
      ≤ 1
    → Unseen env.id w.sp
unseen env spare w h = (
  omega (arith, h, count-cons env.id env.id (names spare), hit_self env.id),
  omega (arith, h, count-cons env.id env.id (names spare), hit_self env.id),
)

-- Rounds of `_warm` that all succeed.
poured :
    (c : PoolConfig) (spare : List EnvironmentHandle) (w : System)
    → ReachWarm c w
    → length spare ≤ w.warming
    → ((x : String) → count x (names spare) + (count x (ids w.sp.idle) + count x w.sp.in_use) ≤ 1)
    → (u : System) × ReachWarm c u × (total u.sp ≡ total w.sp + length spare)
unfolding total warm_put
poured c [] w r left fresh = (w, r, omega arith)
poured c (env ∷ spare) w r left fresh =
    let entry : IdleEntry = record { env = env; idle_since = 0 } in
    let (u, reached, size) =
      poured c spare (record w { sp = warm_put env 0 w.sp; warming = w.warming - 1 })
        (ReachWarm.fill r
          (round env 0 (w.warming - 1) (omega (arith, left)) (unseen env spare w (fresh env.id))))
        (omega (arith, left))
        (λ x.
          omega (
            arith,
            fresh x,
            count-cons x env.id (names spare),
            count-ids-snoc x w.sp.idle entry,
          )) in
    (u, reached, omega (arith, size, length-append w.sp.idle (entry ∷ [])))

-- Beside a pass of `_warm` that has begun on an empty sub-pool tasks can create `max_size`
-- environments, and then its rounds all that it has promised: for any `max_size` and any number of
-- rounds up to `min_idle` there is a run that ends with their sum. (The driver and
-- `time.monotonic_ns()` give names that differ.)
pub warm_overshoots :
    (c : PoolConfig) (placeholder : String) (envs spare : List EnvironmentHandle)
    → Distinct (placeholder ∷ names envs ++ names spare)
    → length envs ≡ c.max_size
    → length spare ≤ c.min_idle
    → (w : System) × ReachWarm c w × (total w.sp ≡ c.max_size + length spare)
unfolding boot new_subpool warm_needed total count
warm_overshoots c p envs spare new full few =
    let (ts, s, r, size, fresh) =
      filled c p (0 + (c.min_idle - 0)) (names spare) envs [] (new_subpool c)
        (ReachWarm.fill ReachWarm.start begins) refl
        (λ x. omega (
          arith,
          Distinct-count (p ∷ names envs ++ names spare) x new,
          count-cons x p (names envs ++ names spare),
          count-append x (names envs) (names spare),
          count-cons x p (names envs),
        ))
        (omega (arith, full)) in
    let (u, reached, sum) =
      poured c spare (at (0 + (c.min_idle - 0)) ts (drained s)) r (omega (arith, few))
        (λ x. omega (arith, fresh x)) in
    (u, reached, omega (arith, sum, size))
