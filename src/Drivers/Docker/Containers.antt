-- ===== src/Drivers/Docker/Containers.antt =====
-- The containers of `DockerDriver`. What the Docker daemon answers to each call is an argument.
use xforgebox.Base.{
  ℕ, String, ◌<>◌, Bool, true, false, not, Option, none, some, List, [], ◌∷◌, if◌then◌else◌, ◌==◌,
  nat_eq, string_eq,
}
use xforgebox.Base.Counting.{discard}
use xforgebox.Errors.{
  Result, ok, err, ◌>>◌, Exception, docker_error, runtime_driver_error, container_start_error,
  cancelled_error,
}
use xforgebox.Models.{EnvironmentHandle, ℤ, pos, negsuc}

-- A call returns, or raises a `DockerError` with a status, or another exception.
pub data Reply : Type 0 where
  done : Reply
  refused : ℕ → Reply
  raised : Exception → Reply

-- The ids of the containers that the daemon has.
abbrev pub Containers : Type 0
Containers = List String

-- `except Exception` catches all but a cancellation.
unfoldable pub is_caught : Exception → Bool
is_caught cancelled_error = false
is_caught _ = true

-- `_ensure_image`: the answers are those to `inspect` and to `pull`.
unfoldable pub ensure_image : Reply → Reply → Result (Unit {0})
unfolding nat_eq
ensure_image done pull = ok tt
ensure_image (raised e) pull = err e
ensure_image (refused status) pull =
    if not (status == 404)
    then err docker_error
    else elim pull [ done ↦ ok tt | refused s ↦ err runtime_driver_error | raised e ↦ err e ]

-- What the daemon answers while an environment is created.
pub record Creation : Type 0 where
  pub inspect : Reply
  pub pull : Reply
  pub create : Reply
  pub start : Reply
  pub put_archive : Reply
  pub kill : Reply
  pub delete : Reply

-- `with contextlib.suppress(DockerError)`
abbrev pub suppressed : Reply → Result (Unit {0})
suppressed done = ok tt
suppressed (refused s) = ok tt
suppressed (raised e) = err e

abbrev pub deleted : Reply → String → Containers → Containers
deleted done id cs = discard id cs
deleted (refused s) id cs = cs
deleted (raised e) id cs = cs

-- The container is removed when `forge-run` could not be installed in it, and the exception goes on.
unfoldable pub roll_back :
    Creation → Exception → String → Containers → Result EnvironmentHandle × Containers
unfolding string_eq is_caught discard
roll_back c e id cs = if not (is_caught e) then (err e, cs) else elim (suppressed c.kill) [
  | err k ↦ (err k, cs)
  | ok _ ↦ (suppressed c.delete >> err e, deleted c.delete id cs)
]

-- `_install_forge_run` and the rest, in a container that runs.
unfoldable pub install :
    Creation → EnvironmentHandle → Containers → Result EnvironmentHandle × Containers
unfolding roll_back
install c env cs = elim c.put_archive [
  | done ↦ (ok env, cs)
  | refused s ↦ roll_back c docker_error env.id cs
  | raised e ↦ roll_back c e env.id cs
]

-- `create_environment`; `id` is that of the new container, and `name` the end of its name.
unfoldable pub create_environment :
    Creation
    → String
    → String
    → String
    → String
    → Containers
    → Result EnvironmentHandle × Containers
unfolding ensure_image install
create_environment c label_prefix image name id cs = elim (ensure_image c.inspect c.pull) [
  | err e ↦ (err e, cs)
  | ok _ ↦ elim c.create [
    | refused s ↦ (err container_start_error, cs)
    | raised e ↦ (err e, cs)
    | done ↦ elim c.start [
      | refused s ↦ (err container_start_error, id ∷ cs)
      | raised e ↦ (err e, id ∷ cs)
      | done ↦
          install c
            (record {
              id = id;
              image = image;
              driver = "docker";
              runtime_labels = ("name", label_prefix <> name) ∷ [];
            })
            (id ∷ cs)
    ]
  ]
]

-- `destroy_environment`: the answers are those to `stop` and to `delete`.
unfoldable pub destroy_environment :
    Reply → Reply → String → Containers → Result (Unit {0}) × Containers
unfolding string_eq nat_eq discard
destroy_environment stop delete id cs = elim (suppressed stop) [
  | err e ↦ (err e, cs)
  | ok _ ↦ elim delete [
    | done ↦ (ok tt, discard id cs)
    | refused status ↦ if status == 404 then (ok tt, cs) else (err runtime_driver_error, cs)
    | raised e ↦ (err e, cs)
  ]
]

-- What the daemon answers while a container is checked.
pub record Check : Type 0 where
  pub show : Reply
  pub running : Bool
  pub exec : Reply
  pub read : Reply
  pub inspect : Reply
  pub exit_code : Option ℤ

abbrev alive : Reply → Result Bool → Result Bool
alive done rest = rest
alive (refused s) rest = ok false
alive (raised e) rest = if is_caught e then ok false else err e

abbrev is_zero : Option ℤ → Bool
is_zero none = false
is_zero (some (pos n)) = n == 0
is_zero (some (negsuc n)) = false

-- `health_check`
unfoldable pub health_check : Check → Result Bool
unfolding is_caught nat_eq
health_check c = alive c.show (
    if not c.running
    then ok false
    else alive c.exec (alive c.read (alive c.inspect (ok (is_zero c.exit_code)))))
