-- ===== src/Pool/Tasks.antt =====
-- The coroutines of src/forge/pool/container_pool.py that use one sub-pool: `session` with its
-- `_acquire` and `_release`, as tasks that take turns. A task stands at an `await`; `advance` is
-- the code that it runs from there to its next one, once the event that it waits for is there.
-- A lease times out by the clock of its task; the pool is open throughout.
use xforgebox.Base.{
  ℕ, ◌+◌, String, Bool, true, false, Option, none, some, List, [], ◌∷◌, leb, if◌then◌else◌,
  string_eq,
}
use xforgebox.Errors.{Exception, pool_exhausted_error, cancelled_error}
use xforgebox.Models.{EnvironmentHandle}
use xforgebox.Pool.Defs.{
  IdleEntry, SubPool, Attempt, attempt, count_lease, created, create_failed, dispose, requeue,
  release,
}

-- Where a task stands. `started` is when it asked for its lease.
pub data Task : Type 0 where
  -- `async with sp.lock` at the top of the loop of `_acquire`
  wants : ℕ → Task
  -- `_create_env`, with the lock held
  creating : String → ℕ → Task
  -- `health_check` of step 3, and the two ways on, both behind `async with sp.lock`
  checking : IdleEntry → ℕ → Task
  healthy : IdleEntry → ℕ → Task
  unhealthy : IdleEntry → ℕ → Task
  -- `destroy_environment` of step 3
  destroying : ℕ → Task
  -- `sp.idle.get()` of step 4
  waiting : ℕ → Task
  -- the body of `async with pool.session(...)`
  leased : EnvironmentHandle → Task
  -- `health_check` of `_release`, then its `async with sp.lock`
  releasing : EnvironmentHandle → Task
  returning : EnvironmentHandle → Bool → Task
  -- the slot has been given up, or the task has raised, with the slots that it never gave up
  finished : Task
  raised : Exception → List String → Task

pub data Event : Type 0 where
  -- the lock is free, at this time, and `time.monotonic_ns()` gives this placeholder
  lock : ℕ → String → Event
  -- the driver returns or raises
  booted : EnvironmentHandle → ℕ → Event
  health : Bool → Event
  destroyed : Event
  fails : Exception → Event
  -- `idle.get()` returns, or its time is over
  woken : Event
  times_out : Event
  -- the body of the session ends
  leaves : Event
  -- the task is cancelled
  cancels : Event

-- The slots of `in_use` that a task has reserved.
abbrev pub held : Task → List String
held (creating placeholder started) = placeholder ∷ []
held (checking entry started) = entry.env.id ∷ []
held (healthy entry started) = entry.env.id ∷ []
held (unhealthy entry started) = entry.env.id ∷ []
held (leased env) = env.id ∷ []
held (releasing env) = env.id ∷ []
held (returning env alive) = env.id ∷ []
held (raised e slots) = slots
held _ = []

-- The lock, the sub-pool and the task after a turn.
abbrev pub Turn : Type 0
Turn = record { locked : Bool; sp : SubPool; task : Task }

-- What follows step 2 of `_acquire`; without an entry and without room, step 4 begins.
unfoldable pub enter : ℕ → ℕ → String → Attempt × SubPool → Turn
enter started now placeholder (Attempt.check entry, sp) = record {
  locked = false;
  sp = sp;
  task = checking entry started;
}
enter started now placeholder (Attempt.create, sp) = record {
  locked = true;
  sp = sp;
  task = creating placeholder started;
}
enter started now placeholder (Attempt.exhausted, sp) = record {
  locked = false;
  sp = sp;
  task =
      if leb (started + sp.config.lease_wait_timeout_ms) now
      then raised pool_exhausted_error []
      else waiting started;
}

unfoldable pub wake : ℕ → Bool → SubPool → Option Turn
unfolding requeue
wake started locked sp = elim sp.idle [
  | [] ↦ none
  | _ ∷ _ ↦ some (record { locked = locked; sp = requeue sp; task = wants started })
]

-- One turn of a task: `none` where the event is not the one that it waits for.
unfoldable pub advance : Task → Event → Bool → SubPool → Option Turn
unfolding enter wake attempt created create_failed count_lease dispose release
advance (wants started) (lock now placeholder) false sp =
    some (enter started now placeholder (attempt placeholder sp))
advance (wants started) cancels l sp =
    some (record { locked = l; sp = sp; task = raised cancelled_error [] })
advance (creating placeholder started) (booted env now) l sp =
    some (record { locked = false; sp = created placeholder env started now sp; task = leased env })
advance (creating placeholder started) (fails e) l sp =
    some (record { locked = false; sp = create_failed placeholder sp; task = raised e [] })
advance (creating placeholder started) cancels l sp =
    some (record { locked = false; sp = sp; task = raised cancelled_error (placeholder ∷ []) })
advance (checking entry started) (health alive) l sp = some (record {
  locked = l;
  sp = sp;
  task = if alive then healthy entry started else unhealthy entry started;
})
advance (checking entry started) (fails e) l sp =
    some (record { locked = l; sp = sp; task = raised e (entry.env.id ∷ []) })
advance (checking entry started) cancels l sp =
    some (record { locked = l; sp = sp; task = raised cancelled_error (entry.env.id ∷ []) })
advance (healthy entry started) (lock now _) false sp =
    some (record { locked = false; sp = count_lease started now sp; task = leased entry.env })
advance (healthy entry started) cancels l sp =
    some (record { locked = l; sp = sp; task = raised cancelled_error (entry.env.id ∷ []) })
advance (unhealthy entry started) (lock now _) false sp =
    some (record { locked = false; sp = dispose entry.env.id sp; task = destroying started })
advance (unhealthy entry started) cancels l sp =
    some (record { locked = l; sp = sp; task = raised cancelled_error (entry.env.id ∷ []) })
advance (destroying started) destroyed l sp =
    some (record { locked = l; sp = sp; task = wants started })
advance (destroying started) (fails e) l sp =
    some (record { locked = l; sp = sp; task = wants started })
advance (destroying started) cancels l sp =
    some (record { locked = l; sp = sp; task = raised cancelled_error [] })
advance (waiting started) woken l sp = wake started l sp
advance (waiting started) times_out l sp =
    some (record { locked = l; sp = sp; task = raised pool_exhausted_error [] })
advance (waiting started) cancels l sp =
    some (record { locked = l; sp = sp; task = raised cancelled_error [] })
advance (leased env) leaves l sp = some (record { locked = l; sp = sp; task = releasing env })
advance (leased env) (fails e) l sp = some (record { locked = l; sp = sp; task = releasing env })
advance (leased env) cancels l sp = some (record { locked = l; sp = sp; task = releasing env })
advance (releasing env) (health alive) l sp =
    some (record { locked = l; sp = sp; task = returning env alive })
advance (releasing env) (fails e) l sp =
    some (record { locked = l; sp = sp; task = returning env false })
advance (releasing env) cancels l sp =
    some (record { locked = l; sp = sp; task = raised cancelled_error (env.id ∷ []) })
advance (returning env alive) (lock now _) false sp =
    some (record { locked = false; sp = release env alive now sp; task = finished })
advance (returning env alive) cancels l sp =
    some (record { locked = l; sp = sp; task = raised cancelled_error (env.id ∷ []) })
advance _ _ _ _ = none
