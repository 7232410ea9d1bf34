-- ===== src/Pool/Lifecycle.antt =====
-- `ContainerPool` of src/forge/pool/container_pool.py as a whole, and the session of
-- src/forge/pool/lease.py. `start` and `shutdown` are modelled as calls that nobody disturbs.
use xforgebox.Base.{
  ℕ, ◌*◌, ◌≡◌, refl, String, Bool, true, false, Option, none, some, List, [], ◌∷◌, ◌++◌, map,
  if◌then◌else◌, ◌==◌, arith, ◌+◌, contains, string_eq, All,
}
use xforgebox.Base.Counting.{count, count-nil, count-append}
use xforgebox.Errors.{Result, ok, err, pool_closed_error, runtime_error}
use xforgebox.Models.{PoolConfig, PoolStats, EnvironmentHandle}
use xforgebox.Config.{ForgeConfig, pool_config_for}
use xforgebox.Pool.Defs.{SubPool, new_subpool, stats_of, ids, total}
use xforgebox.Pool.Reaper.{quiet, warm}

pub record ContainerPool : Type 0 where
  pub config : ForgeConfig
  pub pools : List (String × SubPool)
  pub reaper : Bool
  pub closed : Bool

unfoldable pub lookup : String → List (String × SubPool) → Option SubPool
unfolding string_eq
lookup image [] = none
lookup image ((name, sp) ∷ rest) = if name == image then some sp else lookup image rest

unfoldable pub ensure_subpool : String → ContainerPool → ContainerPool
unfolding lookup new_subpool pool_config_for
ensure_subpool image p = elim (lookup image p.pools) [
  | some sp ↦ p
  | none ↦ record p {
    pools = p.pools ++ (image, new_subpool (pool_config_for p.config image)) ∷ [];
  }
]

unfoldable pub ensure_all : List String → ContainerPool → ContainerPool
unfolding ensure_subpool
ensure_all [] p = p
ensure_all (image ∷ images) p = ensure_all images (ensure_subpool image p)

-- What the driver returns to the calls of `_warm` for an image.
abbrev pub Boots : Type 0
Boots = String → List (Option (EnvironmentHandle × ℕ))

abbrev pub warm_seen : List String → Boots → List (String × SubPool) → List (String × SubPool)
warm_seen seen boots = map λ (name, sp).
    if contains seen name
    then (name, (warm quiet (boots name) (record { sp = sp; destroy_calls = []; awaits = 0 })).sp)
    else (name, sp)

unfoldable pub start : List String → Boots → ContainerPool → Result (Unit {0}) × ContainerPool
unfolding ensure_all string_eq
start warm_images boots p =
    if p.closed
    then (err pool_closed_error, p)
    else if p.reaper
    then (ok tt, p)
    else let images = p.config.default_pool.image ∷ warm_images in
      let q = ensure_all images (record p { reaper = true }) in
      (ok tt, record q { pools = warm_seen images boots q.pools })

-- The ids that `shutdown` hands to `destroy_environment`, sub-pool by sub-pool: the idle ones, then
-- those in use. What the driver raises is suppressed.
abbrev pub torn_down : List (String × SubPool) → List String
torn_down [] = []
torn_down ((name, sp) ∷ rest) = ids sp.idle ++ (sp.in_use ++ torn_down rest)

abbrev pub emptied : SubPool → SubPool
emptied sp = record sp { idle = []; in_use = [] }

unfoldable pub shutdown : ContainerPool → List String × ContainerPool
shutdown p = if p.closed then ([], p) else (
  torn_down p.pools,
  record p {
    closed = true;
    reaper = false;
    pools = map (λ (name, sp). (name, emptied sp)) p.pools;
  },
)

-- The head of `session`: the sub-pool to lease from.
unfoldable pub session : String → ContainerPool → Result (Unit {0}) × ContainerPool
unfolding ensure_subpool
session image p = if p.closed then (err pool_closed_error, p) else (ok tt, ensure_subpool image p)

abbrev pub all_stats : List (String × SubPool) → List PoolStats
all_stats = map λ (name, sp). stats_of name sp

-- An image that is empty or unknown gives the statistics of every sub-pool.
unfoldable pub stats : Option String → ContainerPool → List PoolStats
unfolding lookup stats_of string_eq
stats none p = all_stats p.pools
stats (some image) p =
    if image == ""
    then all_stats p.pools
    else elim (lookup image p.pools) [ some sp ↦ stats_of image sp ∷ [] | none ↦ all_stats p.pools ]

-- `_PooledSession.exec`: what the driver is called with, in milliseconds and bytes.
pub record PooledSession : Type 0 where
  pub workspace_id : String
  pub image : String
  pub env : EnvironmentHandle
  pub config : PoolConfig
  pub closed : Bool

pub record DriverCall : Type 0 where
  pub environment_id : String
  pub command : List String
  pub workspace_id : String
  pub env : List (String × String)
  pub timeout_ms : ℕ
  pub max_output_bytes : ℕ

abbrev pub or_else : Option ℕ → ℕ → ℕ
or_else none d = d
or_else (some n) d = n

unfoldable pub exec_call :
    PooledSession → List String → List (String × String) → Option ℕ → Option ℕ → Result DriverCall
exec_call s command env timeout_ms max_output_bytes =
    if s.closed
    then err runtime_error
    else ok (record {
      environment_id = s.env.id;
      command = command;
      workspace_id = s.workspace_id;
      env = env;
      timeout_ms = or_else timeout_ms (s.config.exec_timeout_seconds * 1000);
      max_output_bytes = or_else max_output_bytes s.config.max_output_bytes;
    })

abbrev pub HasNothing : String × SubPool → Type 0
HasNothing (name, sp) = total sp ≡ 0

emptied-All :
    (ps : List (String × SubPool)) → All HasNothing (map (λ (name, sp). (name, emptied sp)) ps)
unfolding total
emptied-All [] = tt
emptied-All ((name, sp) ∷ ps) = (refl, emptied-All ps)

-- How often an environment is idle or in use in any sub-pool.
unfoldable pub copies : String → List (String × SubPool) → ℕ
copies x [] = 0
copies x ((name, sp) ∷ rest) = count x (ids sp.idle) + count x sp.in_use + copies x rest

count-torn_down : (x : String) (ps : List (String × SubPool)) → count x (torn_down ps) ≡ copies x ps
unfolding copies
count-torn_down x [] = count-nil x
count-torn_down x ((name, sp) ∷ ps) = omega (
  arith,
  count-append x (ids sp.idle) (sp.in_use ++ torn_down ps),
  count-append x sp.in_use (torn_down ps),
  count-torn_down x ps,
)

-- `shutdown` of an open pool that nobody disturbs hands each environment to `destroy_environment` as
-- often as it is idle or in use in a sub-pool, and leaves every sub-pool empty; to call it again hands
-- over none, and a session is refused.
pub shutdown_final :
    (p : ContainerPool) (image : String)
    → p.closed ≡ false
    → let q = (shutdown p).1 in
      ((x : String) → count x (shutdown p).0 ≡ copies x p.pools)
      × All HasNothing q.pools
      × (shutdown q ≡ ([], q))
      × (session image q ≡ (err pool_closed_error, q))
unfolding shutdown session
shutdown_final p image h = rw h ((λ x. count-torn_down x p.pools), emptied-All p.pools, refl, refl)
