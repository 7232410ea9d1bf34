-- ===== src/Pool/System.antt =====
-- The sub-pool of one image with all the tasks that use it: each step is one turn of one task,
-- in any order, or a round of `_warm`, which runs beside them and takes no lock.
use xforgebox.Base.{
  ℕ, suc, ◌+◌, ◌≤◌, ◌≡◌, refl, String, Bool, false, some, List, [], ◌∷◌, ◌++◌, arith, string_eq,
}
use xforgebox.Base.Counting.{count, count-append, count-nil}
use xforgebox.Models.{PoolConfig, EnvironmentHandle}
use xforgebox.Pool.Defs.{SubPool, new_subpool, warm_needed, warm_put}
use xforgebox.Pool.Tasks.{Task, Event, Turn, advance, held, wants}
use xforgebox.Pool.Turns.{IsFresh, Unseen}

-- `warming` is the number of rounds that the passes of `_warm` under way still have to make, together:
-- `start` and the reaper may both have one.
pub record System : Type 0 where
  pub locked : Bool
  pub sp : SubPool
  pub tasks : List Task
  pub warming : ℕ

unfoldable pub boot : PoolConfig → System
unfolding new_subpool
boot c = record { locked = false; sp = new_subpool c; tasks = []; warming = 0 }

-- A turn of the task between `before` and `after`, or a new call of `session`.
pub data Step (w : System) : System → Type 0 where
  opens : (now : ℕ) → Step w (record w { tasks = wants now ∷ w.tasks })
  turn :
      (before after : List Task) (task : Task) (ev : Event) (t : Turn)
      → w.tasks ≡ before ++ task ∷ after
      → IsFresh ev w.sp
      → advance task ev w.locked w.sp ≡ some t
      → Step w (record w { locked = t.locked; sp = t.sp; tasks = before ++ t.task ∷ after })

-- `_warm`: the number of rounds of a pass is fixed at its start, also beside another pass; a round
-- ends by `put_nowait`, and a driver that raises ends its pass, with the rounds that it had left.
pub data Warm (w : System) : System → Type 0 where
  begins : Warm w (record w { warming = w.warming + warm_needed w.sp })
  round :
      (env : EnvironmentHandle) (now left : ℕ)
      → w.warming ≡ suc left
      → Unseen env.id w.sp
      → Warm w (record w { sp = warm_put env now w.sp; warming = left })
  gives_up : (left : ℕ) → left ≤ w.warming → Warm w (record w { warming = left })

-- Any number of turns of tasks.
pub data Turns (v : System) : System → Type 0 where
  here : Turns v v
  further : {w x : System} → Turns v w → Step w x → Turns v x

-- What tasks and passes of `_warm` can reach from an empty sub-pool.
pub data ReachWarm (c : PoolConfig) : System → Type 0 where
  start : ReachWarm c (boot c)
  step : {v w : System} → ReachWarm c v → Step v w → ReachWarm c w
  fill : {v w : System} → ReachWarm c v → Warm v w → ReachWarm c w

-- All reserved slots.
pub held_all : List Task → List String
held_all [] = []
held_all (t ∷ ts) = held t ++ held_all ts

pub held_all-nil : held_all [] ≡ []
unfolding held_all
held_all-nil = refl

pub held_all-cons : (t : Task) (ts : List Task) → held_all (t ∷ ts) ≡ held t ++ held_all ts
unfolding held_all
held_all-cons t ts = refl

-- The slots of a task among those of the others.
pub count-held_all :
    (x : String) (before after : List Task) (t : Task)
    → count x (held_all (before ++ t ∷ after))
      ≡ count x (held t) + (count x (held_all before) + count x (held_all after))
unfolding held_all
count-held_all x [] after t = omega (arith, count-append x (held t) (held_all after), count-nil x)
count-held_all x (s ∷ before) after t = omega (
  arith,
  count-held_all x before after t,
  count-append x (held s) (held_all (before ++ t ∷ after)),
  count-append x (held s) (held_all before),
)
