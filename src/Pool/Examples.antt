-- ===== src/Pool/Examples.antt =====
-- Runs of one sub-pool, and the theorems at concrete states.
use xforgebox.Base.{
  ℕ, ◌+◌, ◌≤◌, ◌≡◌, refl, String, true, false, some, List, [], ◌∷◌, max, map, arith, string_eq,
  nat_eq, contains, length, All,
}
use xforgebox.Base.Counting.{count}
use xforgebox.Models.{PoolConfig, EnvironmentHandle}
use xforgebox.Errors.{cancelled_error}
use xforgebox.Errors.{err, pool_closed_error}
use xforgebox.Pool.Lifecycle.{ContainerPool, shutdown, session, copies, HasNothing, shutdown_final}
use xforgebox.Pool.Defs.{warm_needed, IdleEntry, SubPool, total, ids, release}
use xforgebox.Pool.Tasks.{lock, booted, cancels, advance, wants, creating, leased, raised}
use xforgebox.Pool.System.{System, boot, opens, turn, begins, here, further, ReachWarm, held_all}
use xforgebox.Pool.Safety.{slots_exclusive, total-le-max}
use xforgebox.Pool.Overshoot.{warm_overshoots}
use xforgebox.Pool.Progress.{at}
use xforgebox.Pool.Lost.{stays, lost_in, total_of, lost_slot_stays}
use xforgebox.Pool.Lock.{bit, creators, one_task_creates}
use xforgebox.Pool.Reaper.{
  age_out, destroy_all, await_destroy, drop_front, quiet, trim, reap, youngest_first, keep_target,
  is_expired,
}
use xforgebox.Pool.Reaper.Trim.{trim_accounts, trim_keeps_young, trim_ignores_age, reap_settles}
use xforgebox.Pool.Reaper.Order.{spared_are_youngest}
use xforgebox.Pool.Reaper.Races.{at_first, leases, double_lease, forgotten_release}

abbrev one_slot : PoolConfig
one_slot = record {
  image = "python:3.14-slim";
  min_idle = 1;
  max_size = 1;
  idle_ttl_seconds = 600;
  exec_timeout_seconds = 120;
  max_output_bytes = 100000;
  lease_wait_timeout_ms = 30000;
  workspaces_mount = "/workspaces";
}

abbrev env : String → EnvironmentHandle
env id = record { id = id; image = "python:3.14-slim"; driver = "docker"; runtime_labels = [] }

abbrev in_use_by : List String → SubPool
in_use_by used = record {
  config = one_slot;
  idle = [];
  in_use = used;
  total_leases = 0;
  total_wait_ms = 0;
  total_kills = 0;
}

abbrev leased_one : SubPool
leased_one = record (in_use_by ("c1" ∷ [])) { total_leases = 1; total_wait_ms = 400 }

-- A task asks for a lease, reserves the only slot and creates an environment, beside a pass of
-- `_warm` that has begun before.
warming : ReachWarm one_slot (record { locked = false; sp = in_use_by []; tasks = []; warming = 1 })
unfolding boot warm_needed
warming = ReachWarm.fill ReachWarm.start begins

asking_too :
    ReachWarm one_slot
      (record { locked = false; sp = in_use_by []; tasks = wants 0 ∷ []; warming = 1 })
asking_too = ReachWarm.step warming (opens 0)

reserving_too :
    ReachWarm one_slot (record {
      locked = true;
      sp = in_use_by ("p" ∷ []);
      tasks = creating "p" 0 ∷ [];
      warming = 1;
    })
unfolding advance string_eq count
reserving_too =
    ReachWarm.step asking_too (turn [] [] (wants 0) (lock 0 "p") _ refl (refl, refl) refl)

using_too :
    ReachWarm one_slot
      (record { locked = false; sp = leased_one; tasks = leased (env "c1") ∷ []; warming = 1 })
unfolding advance string_eq count
using_too =
    ReachWarm.step reserving_too
      (turn [] [] (creating "p" 0) (booted (env "c1") 400) _ refl (refl, refl) refl)

slots_exclusive_example :
    (count "c1" leased_one.in_use ≡ count "c1" (held_all (leased (env "c1") ∷ [])))
    × (count "c1" (ids leased_one.idle) + count "c1" (held_all (leased (env "c1") ∷ [])) ≤ 1)
slots_exclusive_example = slots_exclusive one_slot using_too "c1"

total-le-max_example : total leased_one ≤ max 1 (total (in_use_by ("p" ∷ [])))
unfolding advance string_eq count
total-le-max_example =
    total-le-max one_slot reserving_too
      (further here (turn [] [] (creating "p" 0) (booted (env "c1") 400) _ refl (refl, refl) refl))

one_task_creates_example : bit true ≡ creators (creating "p" 0 ∷ [])
one_task_creates_example = one_task_creates one_slot reserving_too

warm_overshoots_example : (w : System) × ReachWarm one_slot w × (total w.sp ≡ 1 + 1)
unfolding string_eq count
warm_overshoots_example =
    warm_overshoots one_slot "p" (env "c1" ∷ []) (env "c2" ∷ []) (refl, (refl, (refl, tt))) refl
      (omega arith)

-- The task is cancelled while it creates: the placeholder stays.
cancelled : ReachWarm one_slot (record {
  locked = false;
  sp = in_use_by ("p" ∷ []);
  tasks = raised cancelled_error ("p" ∷ []) ∷ [];
  warming = 1;
})
unfolding advance
cancelled = ReachWarm.step reserving_too (turn [] [] (creating "p" 0) cancels _ refl tt refl)

lost_slot_stays_example : count "p" (in_use_by ("p" ∷ [])).in_use ≡ 1
unfolding lost_in total_of string_eq count
lost_slot_stays_example = lost_slot_stays one_slot "p" cancelled (omega arith) stays

abbrev entry : String → ℕ → IdleEntry
entry id at = record { env = env id; idle_since = at }

-- Three idle environments, the oldest beyond a time to live of one second, and one in use.
abbrev crowded : ℕ → SubPool
crowded min_idle = record {
  config = record one_slot { min_idle = min_idle; max_size = 8; idle_ttl_seconds = 1 };
  idle = entry "c" 100 ∷ entry "b" 4800 ∷ entry "a" 4900 ∷ [];
  in_use = "e" ∷ [];
  total_leases = 0;
  total_wait_ms = 0;
  total_kills = 0;
}

trim_accounts_example :
    let q = trim quiet 5000 (crowded 3) in
    count "b" (ids q.sp.idle) + count "b" q.destroy_calls ≡ count "b" (ids (crowded 3).idle)
trim_accounts_example = trim_accounts 5000 (crowded 3) "b"

trim_keeps_young_example :
    let q = trim quiet 5000 (crowded 3) in
    All (λ e. is_expired 5000 (crowded 3) e ≡ false) q.sp.idle × (length q.sp.idle ≤ 2)
trim_keeps_young_example = trim_keeps_young 5000 (crowded 3)

trim_ignores_age_example :
    let q = trim quiet 5000 (crowded 1) in
    (q.sp.idle ≡ []) × ((x : String) → count x q.destroy_calls ≡ count x (ids (crowded 1).idle))
trim_ignores_age_example = trim_ignores_age 5000 (crowded 1) (omega arith)

reap_settles_example :
    total
      (reap quiet 5000
        (map (λ b. some b) ((env "n1", 5001) ∷ (env "n2", 5002) ∷ (env "n3", 5003) ∷ []))
        (crowded 3)).sp
    ≡ max 3 1
reap_settles_example =
    reap_settles 5000 ((env "n1", 5001) ∷ (env "n2", 5002) ∷ (env "n3", 5003) ∷ []) (crowded 3)
      (omega arith)

-- "c" is given up, and "a" stays.
spared_are_youngest_example : ◌≤◌ 100 4900
unfolding trim youngest_first is_expired keep_target string_eq count age_out destroy_all
    await_destroy drop_front
spared_are_youngest_example =
    spared_are_youngest 5000 (crowded 3) [] (entry "b" 4800 ∷ entry "a" 4900 ∷ []) []
      (entry "b" 4800 ∷ []) (entry "c" 100) (entry "a" 4900) refl refl refl

double_lease_example :
    let q = (trim (at_first (leases "p")) 5000 (crowded 4)).sp in
    (contains q.in_use "b" ≡ true) × (contains (ids q.idle) "b" ≡ true)
unfolding keep_target youngest_first is_expired
double_lease_example =
    double_lease 5000 (crowded 4) (entry "a" 4900) (entry "b" 4800) (entry "c" 100) refl refl refl
      refl "p"

forgotten_release_example :
    let q = trim (at_first (release (env "e") true 5001)) 5000 (crowded 4) in
    (count "e" q.sp.in_use ≡ 0) × (count "e" (ids q.sp.idle) ≡ 0) × (count "e" q.destroy_calls ≡ 0)
unfolding keep_target youngest_first is_expired string_eq count
forgotten_release_example =
    forgotten_release 5000 (crowded 4) (entry "a" 4900) (entry "b" 4800) (entry "c" 100) refl refl
      refl refl (env "e") 5001 refl

-- A pool with one sub-pool, one of whose environments is leased.
abbrev open_pool : ContainerPool
open_pool = record {
  config = record { default_pool = one_slot; per_image_pool = [] };
  pools = ("python:3.14-slim", leased_one) ∷ [];
  reaper = true;
  closed = false;
}

shutdown_final_example :
    let q = (shutdown open_pool).1 in
    ((x : String) → count x (shutdown open_pool).0 ≡ copies x open_pool.pools)
    × All HasNothing q.pools
    × (shutdown q ≡ ([], q))
    × (session "python:3.14-slim" q ≡ (err pool_closed_error, q))
shutdown_final_example = shutdown_final open_pool "python:3.14-slim" refl
