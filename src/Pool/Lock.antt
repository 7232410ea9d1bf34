-- ===== src/Pool/Lock.antt =====
-- The lock of the sub-pool.
use xforgebox.Base.{
  ℕ, ◌+◌, ◌≡◌, refl, ap, subst, String, Bool, true, false, Option, List, arith, string_eq,
  if◌then◌else◌,
}
use xforgebox.Models.{PoolConfig}
use xforgebox.Pool.Defs.{SubPool, Attempt, attempt}
use xforgebox.Pool.Tasks.{
  Task, Event, lock, booted, health, Turn, enter, wake, advance, wants, creating, checking, healthy,
  unhealthy, destroying, waiting, leased, releasing, returning, destroyed, fails, woken, times_out,
  leaves, cancels,
}
use xforgebox.Pool.Lost.{FromOn, total_of, total_of-middle}
use xforgebox.Pool.System.{System, boot, Step, opens, turn, begins, round, gives_up, ReachWarm}

-- 1 for a task that holds the lock across `create_environment`.
abbrev pub creates : Task → ℕ
creates (creating placeholder started) = 1
creates _ = 0

abbrev pub bit : Bool → ℕ
bit b = if b then 1 else 0

-- The lock is held exactly while a task creates, as far as a turn goes.
abbrev LockKept : ℕ → Option Turn → Type 0
LockKept others o = FromOn (λ t. bit t.locked ≡ creates t.task + others) o

enter-lock :
    (others started now : ℕ) (p : String) (sp : SubPool) (a : Attempt)
    → 0 ≡ others
    → let t = enter started now p (a, sp) in bit t.locked ≡ creates t.task + others
unfolding enter
enter-lock others started now p sp (Attempt.check entry) h = omega arith
enter-lock others started now p sp Attempt.create h = omega arith
enter-lock others started now p sp Attempt.exhausted h = ground arith

wake-lock :
    (others started : ℕ) (l : Bool) (sp : SubPool)
    → bit l ≡ others
    → LockKept others (wake started l sp)
unfolding wake
wake-lock others started l sp h = ground arith

advance-lock :
    (others : ℕ) (task : Task) (ev : Event) (l : Bool) (sp : SubPool)
    → bit l ≡ creates task + others
    → LockKept others (advance task ev l sp)
unfolding advance
advance-lock n (wants s) (lock now p) false sp h =
    enter-lock n s now p (attempt p sp).1 (attempt p sp).0 (omega arith)
advance-lock n (wants s) cancels l sp h = omega arith
advance-lock n (creating p s) (booted env now) l sp h = ground arith
advance-lock n (creating p s) (fails e) l sp h = ground arith
advance-lock n (creating p s) cancels l sp h = ground arith
advance-lock n (checking entry s) (health true) l sp h = omega arith
advance-lock n (checking entry s) (health false) l sp h = omega arith
advance-lock n (checking entry s) (fails e) l sp h = omega arith
advance-lock n (checking entry s) cancels l sp h = omega arith
advance-lock n (healthy entry s) (lock now _) false sp h = omega arith
advance-lock n (healthy entry s) cancels l sp h = omega arith
advance-lock n (unhealthy entry s) (lock now _) false sp h = omega arith
advance-lock n (unhealthy entry s) cancels l sp h = omega arith
advance-lock n (destroying s) destroyed l sp h = omega arith
advance-lock n (destroying s) (fails e) l sp h = omega arith
advance-lock n (destroying s) cancels l sp h = omega arith
advance-lock n (waiting s) woken l sp h = wake-lock n s l sp (omega arith)
advance-lock n (waiting s) times_out l sp h = omega arith
advance-lock n (waiting s) cancels l sp h = omega arith
advance-lock n (leased env) leaves l sp h = omega arith
advance-lock n (leased env) (fails e) l sp h = omega arith
advance-lock n (leased env) cancels l sp h = omega arith
advance-lock n (releasing env) (health alive) l sp h = omega arith
advance-lock n (releasing env) (fails e) l sp h = omega arith
advance-lock n (releasing env) cancels l sp h = omega arith
advance-lock n (returning env alive) (lock now _) false sp h = omega arith
advance-lock n (returning env alive) cancels l sp h = omega arith
advance-lock _ _ _ _ _ h = tt

-- The tasks that are creating an environment.
pub creators : List Task → ℕ
creators = total_of creates

Step-lock :
    {v w : System} → Step v w → bit v.locked ≡ creators v.tasks → bit w.locked ≡ creators w.tasks
unfolding creators total_of
Step-lock (opens now) h = omega (arith, h)
Step-lock {v} (turn before after task ev t e u g) h =
    let others = total_of creates before + total_of creates after in
    let start : bit v.locked ≡ creates task + others =
      omega (arith, h, ap (total_of creates) e, total_of-middle creates before after task) in
    omega (
      arith,
      total_of-middle creates before after t.task,
      subst (LockKept others) g (advance-lock others task ev v.locked v.sp start),
    )

-- In every state that tasks and rounds of `_warm` can reach, at most one task is inside
-- `create_environment` and it holds the lock, which is held by no other task and across no other
-- `await`. (A round of `_warm` creates without the lock, also beside such a task.)
pub one_task_creates :
    (c : PoolConfig) {w : System} → ReachWarm c w → bit w.locked ≡ creators w.tasks
one_task_creates c ReachWarm.start = unfold boot creators total_of in refl
one_task_creates c (ReachWarm.step r st) = Step-lock st (one_task_creates c r)
one_task_creates c (ReachWarm.fill r begins) = one_task_creates c r
one_task_creates c (ReachWarm.fill r (round env now left e u)) = one_task_creates c r
one_task_creates c (ReachWarm.fill r (gives_up left h)) = one_task_creates c r
