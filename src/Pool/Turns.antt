-- ===== src/Pool/Turns.antt =====
-- What one turn of a task keeps, whatever the other tasks hold.
use mathlib.Core.List.{map-append}
use xforgebox.Base.{
  Bool-cases, ltb→lt, leb, subst, inl, inr, ℕ, ◌+◌, ◌≤◌, ◌<◌, ◌≡◌, String, Bool, true, false,
  Option, none, some, List, [], ◌∷◌, ◌++◌, arith, ltb, length, length-append, ap, string_eq,
}
use xforgebox.Base.Counting.{
  count, hit, add, discard, count-nil, count-cons, count-append, count-add, length-add,
  count-discard, length-discard,
}
use xforgebox.Models.{PoolConfig, EnvironmentHandle}
use xforgebox.Pool.Defs.{IdleEntry, SubPool, attempt, created, release, ids}
use xforgebox.Pool.Tasks.{
  Task, Event, lock, booted, health, held, Turn, enter, wake, advance, wants, creating, checking,
  healthy, unhealthy, destroying, waiting, leased, releasing, returning, destroyed, fails, woken,
  times_out, leaves, cancels,
}

-- The set `in_use` holds what the task (`hs`) and the others (`rest`) have reserved, no
-- environment is idle or reserved twice, and together they are within the limit.
pub record Fits (cap : ℕ) (rest : String → ℕ) (hs : List String) (idle : List IdleEntry)
    (used : List String) : Type 0 where
  pub accounted : (x : String) → count x used ≡ count x hs + rest x
  pub exclusive : (x : String) → count x (ids idle) + count x used ≤ 1
  pub bounded : length idle + length used ≤ cap

-- A new name: one that the sub-pool does not know.
abbrev pub Unseen : String → SubPool → Type 0
Unseen x sp = (count x (ids sp.idle) ≡ 0) × (count x sp.in_use ≡ 0)

-- `time.monotonic_ns()` and the driver give new names.
abbrev pub IsFresh : Event → SubPool → Type 0
IsFresh (lock now placeholder) sp = Unseen placeholder sp
IsFresh (booted env now) sp = Unseen env.id sp
IsFresh _ sp = Unit

ids-append : (xs : List IdleEntry) (e : IdleEntry) → ids (xs ++ e ∷ []) ≡ ids xs ++ e.env.id ∷ []
ids-append xs e = map-append _ xs (e ∷ [])

pub count-ids-snoc :
    (x : String) (xs : List IdleEntry) (e : IdleEntry)
    → count x (ids (xs ++ e ∷ [])) ≡ count x (ids xs) + hit x e.env.id
count-ids-snoc x xs e =
    rw ids-append (
      omega (arith, count-append x (ids xs) (e.env.id ∷ []), count-cons x e.env.id [], count-nil x))

pub hit_self : (x : String) → hit x x ≡ 1
hit_self x = ground arith

module _ (cap : ℕ) (rest : String → ℕ) (idle : List IdleEntry) (used : List String) where
  take_idle-Fits :
      (entry : IdleEntry)
      → Fits cap rest [] (entry ∷ idle) used
      → Fits cap rest (entry.env.id ∷ []) idle (add entry.env.id used)
  take_idle-Fits entry f = record {
    accounted = λ x. omega (
      arith,
      f.accounted x,
      count-add entry.env.id x used free,
      count-cons x entry.env.id [],
      count-nil x,
    );
    exclusive = λ x. omega (
      arith,
      f.exclusive x,
      count-add entry.env.id x used free,
      count-cons x entry.env.id (ids idle),
    );
    bounded = omega (arith, f.bounded, length-add entry.env.id used free);
  }
    where
      free : count entry.env.id used ≡ 0
      free = omega (
        arith,
        f.exclusive entry.env.id,
        count-cons entry.env.id entry.env.id (ids idle),
        hit_self entry.env.id,
      )

  reserve-Fits :
      (p : String)
      → count p (ids idle) ≡ 0
      → count p used ≡ 0
      → length idle + length used < cap
      → Fits cap rest [] idle used
      → Fits cap rest (p ∷ []) idle (add p used)
  reserve-Fits p a b room f = record {
    accounted =
        λ x. omega (arith, f.accounted x, count-add p x used b, count-cons x p [], count-nil x);
    exclusive = λ x. ground (arith, f.exclusive x, count-add p x used b);
    bounded = omega (arith, length-add p used b);
  }

  give_up-Fits :
      (x₀ : String)
      → Fits cap rest (x₀ ∷ []) idle used
      → Fits cap rest [] idle (discard x₀ used) × (length idle + length (discard x₀ used) < cap)
  give_up-Fits x₀ f = (
    record {
      accounted = λ x. ground (
        arith,
        f.accounted x,
        f.exclusive x,
        count-discard x₀ x used,
        count-cons x x₀ [],
        count-nil x,
      );
      exclusive = λ x. ground (arith, f.exclusive x, count-discard x₀ x used);
      bounded = omega (arith, f.bounded, length-discard x₀ used);
    },
    omega (
      arith,
      f.bounded,
      length-discard x₀ used,
      f.accounted x₀,
      count-cons x₀ x₀ [],
      hit_self x₀,
    ),
  )

  put_back-Fits :
      (entry : IdleEntry)
      → Fits cap rest (entry.env.id ∷ []) idle used
      → Fits cap rest [] (idle ++ entry ∷ []) (discard entry.env.id used)
  put_back-Fits entry f = record {
    accounted = (give_up-Fits entry.env.id f).0.accounted;
    exclusive = λ x. ground (
      arith,
      f.accounted x,
      f.exclusive x,
      count-discard entry.env.id x used,
      count-ids-snoc x idle entry,
      count-cons x entry.env.id [],
      count-nil x,
    );
    bounded = omega (arith, (give_up-Fits entry.env.id f).1, length-append idle (entry ∷ []));
  }

  requeue-Fits :
      (hs : List String) (entry : IdleEntry)
      → Fits cap rest hs (entry ∷ idle) used
      → Fits cap rest hs (idle ++ entry ∷ []) used
  requeue-Fits hs entry f = record {
    accounted = f.accounted;
    exclusive = λ x.
        omega
          (arith, f.exclusive x, count-ids-snoc x idle entry, count-cons x entry.env.id (ids idle));
    bounded = omega (arith, f.bounded, length-append idle (entry ∷ []));
  }

-- The slots of a task within a sub-pool of a given configuration.
abbrev pub FitsIn : PoolConfig → ℕ → (String → ℕ) → List String → SubPool → Type 0
FitsIn c cap rest hs sp = Fits cap rest hs sp.idle sp.in_use × (sp.config ≡ c)

module _ (c : PoolConfig) (cap : ℕ) (limit : c.max_size ≤ cap) (rest : String → ℕ) where
  abbrev Within : List String → SubPool → Type 0
  Within = FitsIn c cap rest

  created-FitsIn :
      (sp : SubPool) (p : String) (env : EnvironmentHandle) (started now : ℕ)
      → Unseen env.id sp
      → Within (p ∷ []) sp
      → Within (env.id ∷ []) (created p env started now sp)
  unfolding created
  created-FitsIn sp p env started now u (f, m) =
      let (g, room) = give_up-Fits cap rest sp.idle sp.in_use p f in
      (
        reserve-Fits cap rest sp.idle (discard p sp.in_use) env.id u.0
            (rw count-discard (ground (arith, u.1))) room g,
        m,
      )

  attempt-FitsIn_at :
      (sp : SubPool) (idle : List IdleEntry) (started now : ℕ) (p : String)
      → let q : SubPool = record sp { idle = idle } in
        Unseen p q
        → Within [] q
        → let t = enter started now p (attempt p q) in Within (held t.task) t.sp
  unfolding enter attempt
  attempt-FitsIn_at sp [] started now p u (f, m) =
      elim (Bool-cases (ltb (0 + length sp.in_use) sp.config.max_size)) [
        | inl room ↦ rw room (
          reserve-Fits cap rest [] sp.in_use p u.0 u.1
              (omega (arith, limit, ltb→lt _ _ room, ap (λ (k : PoolConfig). k.max_size) m)) f,
          m,
        )
        | inr full ↦
            rw full (elim (Bool-cases (leb (started + sp.config.lease_wait_timeout_ms) now)) [
              | inl late ↦ rw late (f, m)
              | inr early ↦ rw early (f, m)
            ])
      ]
  attempt-FitsIn_at sp (entry ∷ more) started now p u (f, m) =
      (take_idle-Fits cap rest more sp.in_use entry f, m)

  -- What a turn leaves, if it is one.
  abbrev KeepsFit : Option Turn → Type 0
  KeepsFit none = Unit
  KeepsFit (some t) = Within (held t.task) t.sp

  wake-KeepsFit_at :
      (sp : SubPool) (idle : List IdleEntry) (started : ℕ) (l : Bool)
      → let q : SubPool = record sp { idle = idle } in Within [] q → KeepsFit (wake started l q)
  unfolding wake
  wake-KeepsFit_at sp [] started l f = tt
  wake-KeepsFit_at sp (entry ∷ more) started l (f, m) =
      (requeue-Fits cap rest more sp.in_use [] entry f, m)

  release-FitsIn :
      (env : EnvironmentHandle) (alive : Bool) (now : ℕ) (sp : SubPool)
      → Within (env.id ∷ []) sp
      → Within [] (release env alive now sp)
  unfolding release
  release-FitsIn env true now sp (f, m) =
      (put_back-Fits cap rest sp.idle sp.in_use (record { env = env; idle_since = now }) f, m)
  release-FitsIn env false now sp (f, m) = ((give_up-Fits cap rest sp.idle sp.in_use env.id f).0, m)

  advance-KeepsFit :
      (task : Task) (ev : Event) (l : Bool) (sp : SubPool)
      → IsFresh ev sp
      → Within (held task) sp
      → KeepsFit (advance task ev l sp)
  unfolding advance
  advance-KeepsFit (wants s) (lock now p) false sp u f = attempt-FitsIn_at sp sp.idle s now p u f
  advance-KeepsFit (wants s) cancels l sp u f = f
  advance-KeepsFit (creating p s) (booted env now) l sp u f = created-FitsIn sp p env s now u f
  advance-KeepsFit (creating p s) (fails e) l sp u (f, m) =
      ((give_up-Fits cap rest sp.idle sp.in_use p f).0, m)
  advance-KeepsFit (creating p s) cancels l sp u f = f
  advance-KeepsFit (checking entry s) (health true) l sp u f = f
  advance-KeepsFit (checking entry s) (health false) l sp u f = f
  advance-KeepsFit (checking entry s) (fails e) l sp u f = f
  advance-KeepsFit (checking entry s) cancels l sp u f = f
  advance-KeepsFit (healthy entry s) (lock now _) false sp u f = f
  advance-KeepsFit (healthy entry s) cancels l sp u f = f
  advance-KeepsFit (unhealthy entry s) (lock now _) false sp u (f, m) =
      ((give_up-Fits cap rest sp.idle sp.in_use entry.env.id f).0, m)
  advance-KeepsFit (unhealthy entry s) cancels l sp u f = f
  advance-KeepsFit (destroying s) destroyed l sp u f = f
  advance-KeepsFit (destroying s) (fails e) l sp u f = f
  advance-KeepsFit (destroying s) cancels l sp u f = f
  advance-KeepsFit (waiting s) woken l sp u f = wake-KeepsFit_at sp sp.idle s l f
  advance-KeepsFit (waiting s) times_out l sp u f = f
  advance-KeepsFit (waiting s) cancels l sp u f = f
  advance-KeepsFit (leased env) leaves l sp u f = f
  advance-KeepsFit (leased env) (fails e) l sp u f = f
  advance-KeepsFit (leased env) cancels l sp u f = f
  advance-KeepsFit (releasing env) (health alive) l sp u f = f
  advance-KeepsFit (releasing env) (fails e) l sp u f = f
  advance-KeepsFit (releasing env) cancels l sp u f = f
  advance-KeepsFit (returning env alive) (lock now _) false sp u f =
      release-FitsIn env alive now sp f
  advance-KeepsFit (returning env alive) cancels l sp u f = f
  advance-KeepsFit _ _ _ _ u f = tt

  -- Each turn of a task keeps the accounts, whatever the other tasks have reserved.
  pub advance-FitsIn :
      (task : Task) (ev : Event) (l : Bool) (sp : SubPool) {t : Turn}
      → IsFresh ev sp
      → Within (held task) sp
      → advance task ev l sp ≡ some t
      → Within (held t.task) t.sp
  advance-FitsIn task ev l sp u f h = subst KeepsFit h (advance-KeepsFit task ev l sp u f)
