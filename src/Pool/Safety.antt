-- ===== src/Pool/Safety.antt =====
-- What holds of the sub-pool in every reachable state.
use xforgebox.Base.{
  ℕ, suc, max, ◌+◌, ◌≤◌, ◌≡◌, refl, ap, String, List, [], ◌∷◌, arith, string_eq, length-append,
}
use xforgebox.Base.Counting.{count, count-nil}
use xforgebox.Models.{PoolConfig}
use xforgebox.Pool.Defs.{total, warm_put, ids}
use xforgebox.Pool.Tasks.{Task, wants}
use xforgebox.Pool.Turns.{FitsIn, advance-FitsIn, count-ids-snoc}
use xforgebox.Pool.System.{
  System, boot, Step, opens, turn, Warm, begins, round, gives_up, Turns, ReachWarm, held_all,
  count-held_all, held_all-nil, held_all-cons,
}

-- The reserved slots are those of the tasks, within a limit.
abbrev pub Inv : PoolConfig → ℕ → System → Type 0
Inv c cap w = FitsIn c cap (λ _. 0) (held_all w.tasks) w.sp

boot-Inv : (c : PoolConfig) (cap : ℕ) → Inv c cap (boot c)
unfolding boot
boot-Inv c cap = (
  record {
    accounted = λ x. omega (arith, count-nil x, ap (count x) held_all-nil);
    exclusive = λ x. omega (arith, count-nil x);
    bounded = omega arith;
  },
  refl,
)

Step-Inv :
    (c : PoolConfig) (cap : ℕ) {v w : System}
    → c.max_size ≤ cap
    → Step v w
    → Inv c cap v
    → Inv c cap w
Step-Inv c cap {v} limit (opens now) (f, m) = (
  record {
    accounted = λ x. omega (arith, f.accounted x, ap (count x) (held_all-cons (wants now) v.tasks));
    exclusive = f.exclusive;
    bounded = f.bounded;
  },
  m,
)
Step-Inv c cap {v} limit (turn before after task ev t e u h) (f, m) =
    let rest = λ (x : String). count x (held_all before) + count x (held_all after) in
    let (g, k) =
      advance-FitsIn c cap limit rest task ev v.locked v.sp u
        (
          record {
            accounted = λ x. omega (
              arith,
              f.accounted x,
              count-held_all x before after task,
              ap (λ (ts : List Task). count x (held_all ts)) e,
            );
            exclusive = f.exclusive;
            bounded = f.bounded;
          },
          m,
        )
        h in
    (
      record {
        accounted = λ x. omega (arith, g.accounted x, count-held_all x before after t.task);
        exclusive = g.exclusive;
        bounded = g.bounded;
      },
      k,
    )

-- A limit that only the rounds of `_warm` raise.
abbrev InvWarm : PoolConfig → System → Type 0
InvWarm c w = (cap : ℕ) × (c.max_size ≤ cap) × Inv c cap w

Warm-InvWarm : (c : PoolConfig) {v w : System} → Warm v w → InvWarm c v → InvWarm c w
unfolding warm_put
Warm-InvWarm c begins i = i
Warm-InvWarm c (gives_up left h) i = i
Warm-InvWarm c {v} (round env now left e (a, b)) (cap, room, (f, m)) = (
  suc cap,
  omega arith,
  (
    record {
      accounted = f.accounted;
      exclusive = λ x. ground (
        arith,
        f.exclusive x,
        count-ids-snoc x v.sp.idle (record { env = env; idle_since = now }),
      );
      bounded =
          omega (
            arith,
            f.bounded,
            length-append v.sp.idle (record { env = env; idle_since = now } ∷ []),
          );
    },
    m,
  ),
)

ReachWarm-InvWarm : (c : PoolConfig) {w : System} → ReachWarm c w → InvWarm c w
ReachWarm-InvWarm c ReachWarm.start = (c.max_size, omega arith, boot-Inv c _)
ReachWarm-InvWarm c (ReachWarm.step r st) =
    let (cap, room, i) = ReachWarm-InvWarm c r in (cap, room, Step-Inv c cap room st i)
ReachWarm-InvWarm c (ReachWarm.fill r st) = Warm-InvWarm c st (ReachWarm-InvWarm c r)

-- A smaller limit that the sub-pool keeps as well.
tightened : (c : PoolConfig) (cap : ℕ) (w : System) → InvWarm c w → total w.sp ≤ cap → Inv c cap w
unfolding total
tightened c cap w (big, room, (f, m)) h =
    (record { accounted = f.accounted; exclusive = f.exclusive; bounded = h }, m)

Turns-Inv :
    (c : PoolConfig) (cap : ℕ) {v w : System}
    → c.max_size ≤ cap
    → Turns v w
    → Inv c cap v
    → Inv c cap w
Turns-Inv c cap limit Turns.here i = i
Turns-Inv c cap limit (Turns.further r st) i = Step-Inv c cap limit st (Turns-Inv c cap limit r i)

module _ (c : PoolConfig) where
  -- In every state that tasks and rounds of `_warm` can reach, `in_use` holds each reserved slot
  -- once and nothing else, and no environment is reserved twice, or idle while reserved.
  pub slots_exclusive :
      {w : System}
      → ReachWarm c w
      → (x : String)
      → (count x w.sp.in_use ≡ count x (held_all w.tasks))
        × (count x (ids w.sp.idle) + count x (held_all w.tasks) ≤ 1)
  slots_exclusive r x =
      let (cap, room, (f, m)) = ReachWarm-InvWarm c r in
      (omega (arith, f.accounted x), omega (arith, f.accounted x, f.exclusive x))

  -- From any state that tasks and rounds of `_warm` can reach, turns of tasks alone (no round of
  -- `_warm` and no pass of the reaper among them) leave a sub-pool within `max_size`, or within what
  -- it had before if that was more, whatever the order in which tasks take turns, fail or are
  -- cancelled.
  pub total-le-max :
      {v w : System} → ReachWarm c v → Turns v w → total w.sp ≤ max c.max_size (total v.sp)
  unfolding total
  total-le-max {v} r turns =
      let cap = max c.max_size (total v.sp) in
      (Turns-Inv c cap (omega arith) turns
        (tightened c cap v (ReachWarm-InvWarm c r) (omega arith))).0.bounded
