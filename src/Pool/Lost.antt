-- ===== src/Pool/Lost.antt =====
-- The slots of tasks that have raised without giving them up.
use xforgebox.Base.{
  ℕ, ◌+◌, ◌≤◌, ◌<◌, ◌≡◌, refl, ap, subst, String, Bool, Option, none, some, List, [], ◌∷◌, ◌++◌,
  arith, string_eq,
}
use xforgebox.Base.Counting.{count, count-append}
use xforgebox.Models.{PoolConfig}
use xforgebox.Pool.Defs.{SubPool}
use xforgebox.Pool.Tasks.{Task, Event, held, Turn, advance, raised}
use xforgebox.Pool.Safety.{slots_exclusive}
use xforgebox.Pool.System.{
  System, Step, opens, turn, Warm, begins, round, gives_up, ReachWarm, held_all, held_all-cons,
}

-- Anything that each task has some number of, added up.
unfoldable pub total_of : (Task → ℕ) → List Task → ℕ
total_of f [] = 0
total_of f (t ∷ ts) = f t + total_of f ts

pub total_of-middle :
    (f : Task → ℕ) (before after : List Task) (t : Task)
    → total_of f (before ++ t ∷ after) ≡ f t + (total_of f before + total_of f after)
unfolding total_of
total_of-middle f [] after t = omega arith
total_of-middle f (s ∷ before) after t = omega (arith, total_of-middle f before after t)

-- The times that `x` stands among the slots of a task that has raised.
abbrev lost : String → Task → ℕ
lost x (raised e slots) = count x slots
lost x _ = 0

abbrev pub FromOn : (Turn → Type 0) → Option Turn → Type 0
FromOn P none = Unit
FromOn P (some t) = P t

loses_more : (x : String) (o : Option Turn) → FromOn (λ t. 0 ≤ lost x t.task) o
loses_more x none = tt
loses_more x (some t) = omega arith

advance-lost :
    (x : String) (task : Task) (ev : Event) (l : Bool) (sp : SubPool)
    → FromOn (λ t. lost x task ≤ lost x t.task) (advance task ev l sp)
unfolding advance
advance-lost x (raised e slots) ev l sp = tt
advance-lost x task ev l sp = loses_more x (advance task ev l sp)

-- `x` is lost in a state.
unfoldable pub lost_in : String → System → ℕ
unfolding total_of
lost_in x w = total_of (lost x) w.tasks

lost_in-le-held : (x : String) (ts : List Task) → total_of (lost x) ts ≤ count x (held_all ts)
unfolding total_of
lost_in-le-held x [] = omega arith
lost_in-le-held x (raised e slots ∷ ts) = omega (
  arith,
  lost_in-le-held x ts,
  ap (count x) (held_all-cons (raised e slots) ts),
  count-append x slots (held_all ts),
)
lost_in-le-held x (t ∷ ts) = omega (
  arith,
  lost_in-le-held x ts,
  ap (count x) (held_all-cons t ts),
  count-append x (held t) (held_all ts),
)

Step-lost_in : (x : String) {v w : System} → Step v w → lost_in x v ≤ lost_in x w
unfolding lost_in total_of
Step-lost_in x (opens now) = omega arith
Step-lost_in x {v} (turn before after task ev t e u h) = omega (
  arith,
  ap (total_of (lost x)) e,
  total_of-middle (lost x) before after task,
  total_of-middle (lost x) before after t.task,
  subst (FromOn (λ s. lost x task ≤ lost x s.task)) h (advance-lost x task ev v.locked v.sp),
)

-- Any further steps, of tasks and of `_warm`.
pub data Run (v : System) : System → Type 0 where
  stays : Run v v
  acts : {u w : System} → Run v u → Step u w → Run v w
  warms : {u w : System} → Run v u → Warm u w → Run v w

Run-ReachWarm : (c : PoolConfig) {v w : System} → ReachWarm c v → Run v w → ReachWarm c w
Run-ReachWarm c r stays = r
Run-ReachWarm c r (acts p st) = ReachWarm.step (Run-ReachWarm c r p) st
Run-ReachWarm c r (warms p st) = ReachWarm.fill (Run-ReachWarm c r p) st

Warm-lost_in : (x : String) {v w : System} → Warm v w → lost_in x v ≡ lost_in x w
unfolding lost_in
Warm-lost_in x begins = refl
Warm-lost_in x (round env now left e u) = refl
Warm-lost_in x (gives_up left h) = refl

Run-lost_in : (x : String) {v w : System} → Run v w → lost_in x v ≤ lost_in x w
Run-lost_in x stays = omega arith
Run-lost_in x (acts p st) = omega (arith, Run-lost_in x p, Step-lost_in x st)
Run-lost_in x (warms p st) = omega (arith, Run-lost_in x p, Warm-lost_in x st)

-- A slot that a task has kept while raising (a cancelled `_acquire`, or one whose health check
-- raises) is still in `in_use`, once, and so counts against `max_size`, after any further turns of
-- tasks and rounds of `_warm`. (A pass of the reaper and `shutdown` are not among them.)
pub lost_slot_stays :
    (c : PoolConfig) {v w : System} (x : String)
    → ReachWarm c v
    → 0 < lost_in x v
    → Run v w
    → count x w.sp.in_use ≡ 1
unfolding lost_in
lost_slot_stays c {v} {w} x r some_lost p =
    omega
      (arith, Run-lost_in x p, lost_in-le-held x w.tasks, slots_exclusive c (Run-ReachWarm c r p) x)
