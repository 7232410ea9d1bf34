-- ===== src/Pool/Defs.antt =====
-- src/forge/pool/container_pool.py: the sub-pool of one image, and its operations cut at each
-- `await`: a function below is code that runs without another task in between.
use xforgebox.Base.{
  ℕ, ◌+◌, ◌-◌, String, Bool, List, [], ◌∷◌, ◌++◌, map, ltb, length, if◌then◌else◌, string_eq,
}
use xforgebox.Base.Counting.{add, discard}
use xforgebox.Models.{PoolConfig, PoolStats, EnvironmentHandle}

-- `_IdleEntry`
pub record IdleEntry : Type 0 where
  pub env : EnvironmentHandle
  pub idle_since : ℕ

-- `_SubPool`. The head of `idle` is the front of the `asyncio.Queue`; `in_use` is a set of ids,
-- kept as a list without order.
pub record SubPool : Type 0 where
  pub config : PoolConfig
  pub idle : List IdleEntry
  pub in_use : List String
  pub total_leases : ℕ
  pub total_wait_ms : ℕ
  pub total_kills : ℕ

-- `_SubPool.total`
unfoldable pub total : SubPool → ℕ
total sp = length sp.idle + length sp.in_use

-- `_SubPool(config=cfg)`
unfoldable pub new_subpool : PoolConfig → SubPool
new_subpool cfg = record {
  config = cfg;
  idle = [];
  in_use = [];
  total_leases = 0;
  total_wait_ms = 0;
  total_kills = 0;
}

-- What an acquiring task does after its first critical section.
pub data Attempt : Type 0 where
  check : IdleEntry → Attempt
  create : Attempt
  exhausted : Attempt

-- Steps 1 and 2 of `_acquire`, up to the call of the driver: an idle entry is reserved, or a
-- placeholder is put into `in_use` if there is room.
unfoldable pub attempt : String → SubPool → Attempt × SubPool
unfolding total add
attempt placeholder sp = elim sp.idle [
  | entry ∷ rest ↦ (check entry, record sp { idle = rest; in_use = add entry.env.id sp.in_use })
  | [] ↦
      if ltb (total sp) sp.config.max_size
      then (create, record sp { in_use = add placeholder sp.in_use })
      else (exhausted, sp)
]

-- `total_leases += 1` and the wait that is added with it.
unfoldable pub count_lease : ℕ → ℕ → SubPool → SubPool
count_lease started now sp = record sp {
  total_leases = sp.total_leases + 1;
  total_wait_ms = sp.total_wait_ms + (now - started);
}

-- Step 2 after the driver has returned: the placeholder gives way to the environment's id.
unfoldable pub created : String → EnvironmentHandle → ℕ → ℕ → SubPool → SubPool
unfolding add discard count_lease
created placeholder env started now sp =
    count_lease started now (record sp { in_use = add env.id (discard placeholder sp.in_use) })

-- Step 2 after the driver has raised.
unfoldable pub create_failed : String → SubPool → SubPool
unfolding discard
create_failed placeholder sp = record sp { in_use = discard placeholder sp.in_use }

-- Step 3 for an entry that failed its health check.
unfoldable pub dispose : String → SubPool → SubPool
unfolding discard
dispose id sp = record sp { in_use = discard id sp.in_use; total_kills = sp.total_kills + 1 }

-- Step 4 when `idle.get()` returns in time: the entry is put back, at the end of the queue.
unfoldable pub requeue : SubPool → SubPool
requeue sp = elim sp.idle [ [] ↦ sp | entry ∷ rest ↦ record sp { idle = rest ++ entry ∷ [] } ]

-- `_release` on a closed pool, before the environment is destroyed.
unfoldable pub release_closed : EnvironmentHandle → SubPool → SubPool
unfolding discard
release_closed env sp = record sp { in_use = discard env.id sp.in_use }

-- The second critical section of `_release`, with the result of the health check.
unfoldable pub release : EnvironmentHandle → Bool → ℕ → SubPool → SubPool
unfolding discard
release env alive now sp =
    let freed = discard env.id sp.in_use in
    if alive
    then record sp { in_use = freed; idle = sp.idle ++ record { env = env; idle_since = now } ∷ [] }
    else record sp { in_use = freed; total_kills = sp.total_kills + 1 }

-- `needed` of `_warm`, where the loop takes `max(0, needed)` rounds.
unfoldable pub warm_needed : SubPool → ℕ
unfolding total
warm_needed sp = sp.config.min_idle - total sp

-- The end of one round of `_warm`.
unfoldable pub warm_put : EnvironmentHandle → ℕ → SubPool → SubPool
warm_put env now sp = record sp { idle = sp.idle ++ record { env = env; idle_since = now } ∷ [] }

-- One entry of `ContainerPool.stats`.
unfoldable pub stats_of : String → SubPool → PoolStats
unfolding total
stats_of name sp = record {
  image = name;
  idle = length sp.idle;
  in_use = length sp.in_use;
  total = total sp;
  max_size = sp.config.max_size;
  min_idle = sp.config.min_idle;
  total_leases = sp.total_leases;
  total_lease_wait_ms = sp.total_wait_ms;
  total_health_kills = sp.total_kills;
}

abbrev pub ids : List IdleEntry → List String
ids = map λ e. e.env.id
