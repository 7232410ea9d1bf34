-- ===== src/Drivers/Docker/Limits.antt =====
-- The host configuration of a container. What Python's `int` and `float` make of a text, and
-- products of floats, are arguments.
use xforgebox.Base.{
  ℕ, ◌-◌, ◌^◌, String, ◌<>◌, Bool, Option, none, some, List, [], ◌∷◌, map, if◌then◌else◌, ◌==◌,
  nat_eq, length, take,
}
use xforgebox.Errors.{Result, ok, ◌>>=◌}
use xforgebox.Models.{Text, ℤ, ResourceLimits}
use xforgebox.Services.Files.Paths.{codes}

-- `text.strip()`, `int(text)`, `int(float(text) * unit)` and `int(cpu * 1_000_000_000)`.
pub record Numbers : Type 0 where
  pub strip : Text → Text
  pub integer : Text → Result ℤ
  pub scaled : Text → ℕ → Result ℤ
  pub nano : ℕ → ℤ

unfoldable pub unit_of : ℕ → Option ℕ
unfolding nat_eq
unit_of c =
    if c == b'K'
    then some 1024
    else if c == b'M'
    then some (1024 ^ 2)
    else if c == b'G'
    then some (1024 ^ 3)
    else if c == b'T'
    then some (1024 ^ 4)
    else none

-- `s[-2:]` and `s[-1:]`
abbrev last_two : Text → Text
last_two [] = []
last_two (a ∷ []) = a ∷ []
last_two (a ∷ b ∷ []) = a ∷ b ∷ []
last_two (a ∷ b ∷ c ∷ s) = last_two (b ∷ c ∷ s)

abbrev last_unit : Text → Option ℕ
last_unit [] = none
last_unit (a ∷ []) = unit_of a
last_unit (a ∷ b ∷ s) = last_unit (b ∷ s)

-- The unit of a suffix such as `Mi`.
abbrev binary_unit : Text → Option ℕ
binary_unit [] = none
binary_unit (a ∷ []) = none
binary_unit (a ∷ b ∷ s) = if b == b'i' then unit_of a else none

abbrev but_last : ℕ → Text → Text
but_last n s = take (length s - n) s

-- `_parse_memory`
unfoldable pub parse_memory : Numbers → Text → Result ℤ
unfolding unit_of nat_eq
parse_memory num text =
    let s = num.strip text in
    elim (binary_unit (last_two s)) [
      | some unit ↦ num.scaled (but_last 2 s) unit
      | none ↦ elim (last_unit s) [
        | some unit ↦ num.scaled (but_last 1 s) unit
        | none ↦ num.integer s
      ]
    ]

-- `Mount` of src/forge/drivers/base.py.
pub record Mount : Type 0 where
  pub source : String
  pub target : String
  pub read_only : Bool

-- The keys that the dictionary has.
pub record HostConfig : Type 0 where
  pub binds : Option (List String)
  pub nano_cpus : Option ℤ
  pub memory : Option ℤ

abbrev bind : Mount → String
bind m = m.source <> ":" <> m.target <> ":" <> (if m.read_only then "ro" else "rw")

abbrev bind_all : List Mount → Option (List String)
bind_all [] = none
bind_all (m ∷ ms) = some (map bind (m ∷ ms))

abbrev memory_of : Numbers → Option String → Result (Option ℤ)
memory_of num none = ok none
memory_of num (some text) = parse_memory num (codes text) >>= λ bytes. ok (some bytes)

-- `_build_host_config`
unfoldable pub build_host_config : Numbers → List Mount → Option ResourceLimits → Result HostConfig
unfolding parse_memory
build_host_config num mounts none =
    ok (record { binds = bind_all mounts; nano_cpus = none; memory = none })
build_host_config num mounts (some limits) = memory_of num limits.memory >>= λ memory. ok record {
  binds = bind_all mounts;
  nano_cpus = elim limits.cpu [ none ↦ none | some cpu ↦ some (num.nano cpu) ];
  memory = memory;
}
