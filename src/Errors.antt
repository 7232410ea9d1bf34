-- ===== src/Errors.antt =====
-- src/forge/errors.py: the exception classes, as values. A message is not modelled.
use xforgebox.Base.{◌≡◌, ◌≢◌, refl, arith, Option, none, some}

-- The classes that the package declares, and those of Python and its libraries that its code lets
-- through: `ValueError`, `RuntimeError`, `OSError`, `IndexError`, sqlite3's `IntegrityError`, asyncio's
-- `CancelledError`, aiodocker's `DockerError` and httpx's `TransportError`.
pub data Exception : Type 0 where
  forge_error config_error not_found_error conflict_error : Exception
  workspace_error path_escape_error : Exception
  runtime_driver_error container_start_error exec_timeout_error : Exception
  pool_exhausted_error pool_closed_error snapshot_error artifact_error : Exception
  value_error runtime_error os_error integrity_error cancelled_error docker_error index_error :
      Exception
  transport_error : Exception

-- The base class, as the `class` lines give it; `none` stands for Python's own `Exception`.
unfoldable pub base_class : Exception → Option Exception
base_class forge_error = none
base_class path_escape_error = some workspace_error
base_class container_start_error = some runtime_driver_error
base_class exec_timeout_error = some runtime_driver_error
base_class value_error = none
base_class runtime_error = none
base_class os_error = none
base_class integrity_error = none
base_class cancelled_error = none
base_class docker_error = none
base_class index_error = none
base_class transport_error = none
base_class _ = some forge_error

pub data Result {ℓ} (A : Type ℓ) : Type ℓ where
  ok : A → Result A
  err : Exception → Result A

infixl 5 ◌>>=◌ ◌>>◌
abbrev pub ◌>>=◌ {ℓ κ} : {A : Type ℓ} {B : Type κ} → Result A → (A → Result B) → Result B
ok a >>= f = f a
err e >>= f = err e

abbrev pub ◌>>◌ {ℓ κ} : {A : Type ℓ} {B : Type κ} → Result A → Result B → Result B
m >> k = m >>= λ _. k

-- What a sequence has returned, its second step has, and the first one has returned its argument.
pub bind-ok {ℓ κ} :
    {A : Type ℓ} {B : Type κ} (m : Result A) (f : A → Result B) (b : B)
    → (m >>= f) ≡ ok b
    → (a : A) × (m ≡ ok a) × (f a ≡ ok b)
bind-ok (ok a) f b h = (a, refl, h)
bind-ok (err e) f b h = ground arith

pub err-ne-ok {ℓ} : {A : Type ℓ} (e : Exception) (a : A) → err e ≢ ok a
err-ne-ok e a h = ground arith
