-- ===== src/Pool/Reaper.antt =====
-- `_reap_once` and `_warm` of src/forge/pool/container_pool.py, for one sub-pool. Neither takes the
-- lock, so at each of their `await`s the other tasks may run: `others k` is what they do to the
-- sub-pool at the pass's `await` number `k`, and `quiet` is a pass that nobody disturbs.
pub mod Trim
pub mod Order
pub mod Races
use xforgebox.Base.{
  ℕ, zero, suc, ◌+◌, ◌-◌, ◌*◌, String, Bool, true, false, Option, none, some, List, [], ◌∷◌, ◌++◌,
  ltb, leb, length, take, drop, if◌then◌else◌,
}
use xforgebox.Models.{EnvironmentHandle}
use xforgebox.Pool.Defs.{IdleEntry, SubPool, warm_needed, warm_put}

-- The sub-pool in the course of a pass, with the environments that the pass has handed to the
-- driver's `destroy_environment`.
pub record Pass : Type 0 where
  pub sp : SubPool
  pub destroy_calls : List String
  pub awaits : ℕ

abbrev pub Others : Type 0
Others = ℕ → SubPool → SubPool

abbrev pub quiet : Others
quiet k sp = sp

-- `drained.sort(key=lambda e: e.idle_since, reverse=True)`: the youngest first, and entries of one
-- age in their old order.
unfoldable pub insert_youngest : IdleEntry → List IdleEntry → List IdleEntry
insert_youngest e [] = e ∷ []
insert_youngest e (x ∷ xs) =
    if leb x.idle_since e.idle_since then e ∷ x ∷ xs else x ∷ insert_youngest e xs

unfoldable pub youngest_first : List IdleEntry → List IdleEntry
unfolding insert_youngest
youngest_first [] = []
youngest_first (e ∷ es) = insert_youngest e (youngest_first es)

-- `now - entry.idle_since > idle_ttl_seconds`, in milliseconds.
unfoldable pub is_expired : ℕ → SubPool → IdleEntry → Bool
is_expired now sp e = ltb (sp.config.idle_ttl_seconds * 1000) (now - e.idle_since)

-- `await self._driver.destroy_environment(id)`. What the driver raises is suppressed: the pass goes on
-- in the same way, whether the environment has gone or still runs.
unfoldable pub await_destroy : Others → String → Pass → Pass
await_destroy others id p = record {
  sp = others p.awaits p.sp;
  destroy_calls = p.destroy_calls ++ id ∷ [];
  awaits = suc p.awaits;
}

-- `sp.idle.get_nowait()` with its result dropped and `QueueEmpty` suppressed.
unfoldable pub drop_front : Pass → Pass
drop_front p = record p { sp = record p.sp { idle = drop 1 p.sp.idle } }

-- The loop over `kept`, with `surviving_kept`.
unfoldable pub age_out : Others → (IdleEntry → Bool) → List IdleEntry → Pass → Pass × List IdleEntry
unfolding await_destroy drop_front
age_out others expired [] p = (p, [])
age_out others expired (e ∷ kept) p = elim (expired e) [
  | true ↦ age_out others expired kept (await_destroy others e.env.id (drop_front p))
  | false ↦ let (q, surviving) = age_out others expired kept p in (q, e ∷ surviving)
]

-- The loop over `dead`.
unfoldable pub destroy_all : Others → List IdleEntry → Pass → Pass
unfolding await_destroy
destroy_all others [] p = p
destroy_all others (e ∷ dead) p = destroy_all others dead (await_destroy others e.env.id p)

unfoldable pub keep_target : SubPool → ℕ
keep_target sp = sp.config.min_idle - length sp.in_use

-- One pass over a sub-pool, up to its call of `_warm`.
unfoldable pub trim : Others → ℕ → SubPool → Pass
trim others now sp =
    let drained = youngest_first sp.idle in
    let kept = take (keep_target sp) drained in
    let dead = drop (keep_target sp) drained in
    let (p, surviving) =
      age_out others (is_expired now sp) kept
        (record { sp = record sp { idle = kept }; destroy_calls = []; awaits = 0 }) in
    destroy_all others dead (record p { sp = record p.sp { idle = surviving } })

-- The rounds of `_warm`, over what `create_environment` returns and when; `none` is a call that
-- raises, which ends the loop.
pub warm_rounds : Others → ℕ → List (Option (EnvironmentHandle × ℕ)) → Pass → Pass
warm_rounds others zero boots p = p
warm_rounds others (suc n) [] p = p
warm_rounds others (suc n) (none ∷ boots) p = record p {
  sp = others p.awaits p.sp;
  awaits = suc p.awaits;
}
warm_rounds others (suc n) (some (env, now) ∷ boots) p =
    warm_rounds others n boots
      (record p { sp = warm_put env now (others p.awaits p.sp); awaits = suc p.awaits })

-- `_warm`
pub warm : Others → List (Option (EnvironmentHandle × ℕ)) → Pass → Pass
warm others boots p = warm_rounds others (warm_needed p.sp) boots p

-- One sub-pool's share of `_reap_once`.
pub reap : Others → ℕ → List (Option (EnvironmentHandle × ℕ)) → SubPool → Pass
reap others now boots sp = warm others boots (trim others now sp)
