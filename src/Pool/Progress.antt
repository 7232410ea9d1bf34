-- ===== src/Pool/Progress.antt =====
-- What src/forge/pool/container_pool.py does for a task that waits in `_acquire`.
use xforgebox.Base.{ℕ, String, true, false, List, [], ◌==◌, string_eq, ◌≡◌}
use xforgebox.Base.Counting.{count, add, discard}
use xforgebox.Models.{EnvironmentHandle}
use xforgebox.Pool.Defs.{SubPool, release}
use xforgebox.Pool.Tasks.{Task}
use xforgebox.Pool.System.{System, Turns}

-- The lock is free, `warming` as it was.
abbrev pub at : ℕ → List Task → SubPool → System
at warming tasks sp = record { locked = false; sp = sp; tasks = tasks; warming = warming }

abbrev pub drained : SubPool → SubPool
drained sp = record sp { idle = [] }

module _ (sp : SubPool) (env : EnvironmentHandle) (warming now started : ℕ) (p : String)
    (unseen : count p sp.in_use ≡ 0) (other : (p == env.id) ≡ false) where
  abbrev given_back : SubPool
  given_back = release env true now (drained sp)

  abbrev taken : SubPool
  taken = record sp { idle = []; in_use = add env.id (discard env.id sp.in_use) }
