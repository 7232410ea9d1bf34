-- ===== src/Services/Files/Host.antt =====
-- The disk of the host as src/forge/services/files_service.py sees it: what stands at each path,
-- and the calls of `pathlib` that read or change it. Permissions and a full disk are not modelled.
pub mod Safe
use xforgebox.Base.{
  ℕ, Bool, true, false, Option, none, some, List, [], ◌∷◌, ◌++◌, if◌then◌else◌, ◌==◌, nat_eq,
  list_eq, ◌≡◌, ◌≢◌, refl, arith, Bool-cases, ◌⊎◌, inl, inr, ==_eq, append-nil, append_assoc, sym,
  ◌∙◌, ap,
}
use xforgebox.Errors.{Result, ok, err, os_error}
use xforgebox.Models.{DateTime}
use xforgebox.Strings.Utf8.{Bytes}
use xforgebox.Services.World.{Over, next, next-keeps}
use xforgebox.Services.Files.Paths.{AbsPath}
use xforgebox.Models.{Text}

-- A symbolic link holds where it leads in the end. Links that lead in a circle are not modelled.
pub data Node : Type 0 where
  file : Bytes → Node
  dir : Node
  link : AbsPath → Node

-- What stands at a path, no link followed.
abbrev pub Tree : Type 0
Tree = AbsPath → Option Node

-- One visit of `os.walk`: a directory with the names in it.
pub record Visit : Type 0 where
  pub base : AbsPath
  pub dirs : List Text
  pub files : List Text

-- What the operating system and `pathlib` know: `Path.resolve` of a path below a directory, the
-- names in a directory in any order, `os.walk` without links, sizes of directories and times. And
-- what `base64` does, where texts that it refuses give nothing.
pub record Os : Type 0 where
  pub workspaces : AbsPath
  pub realpath : Tree → AbsPath → List Text → Result AbsPath
  pub scan : Tree → AbsPath → List Text
  pub visits : Tree → AbsPath → List Visit
  pub dir_size : AbsPath → ℕ
  pub modified_at : AbsPath → DateTime
  pub b64decode : Text → Option Bytes
  pub b64encode : Bytes → Text

abbrev pub put : AbsPath → Option Node → Tree → Tree
put p n t q = if q == p then n else t q

-- What stands where a path leads: a link that leads nowhere gives nothing.
unfoldable pub stat : Tree → AbsPath → Option Node
stat t p = elim (t p) [
  | none ↦ none
  | some n ↦ elim n [ file b ↦ some (file b) | dir ↦ some dir | link q ↦ t q ]
]

abbrev pub exists : Tree → AbsPath → Bool
exists t p = elim (stat t p) [ none ↦ false | some n ↦ true ]

abbrev pub is_dir : Tree → AbsPath → Bool
is_dir t p = elim (stat t p) [
  | none ↦ false
  | some n ↦ elim n [ dir ↦ true | file b ↦ false | link q ↦ false ]
]

abbrev pub is_file : Tree → AbsPath → Bool
is_file t p = elim (stat t p) [
  | none ↦ false
  | some n ↦ elim n [ file b ↦ true | dir ↦ false | link q ↦ false ]
]

-- `read_bytes`
abbrev pub read_bytes : Tree → AbsPath → Result Bytes
read_bytes t p = elim (stat t p) [
  | none ↦ err os_error
  | some n ↦ elim n [ file b ↦ ok b | dir ↦ err os_error | link q ↦ err os_error ]
]

-- `path.parent.mkdir(parents=True, exist_ok=True)` for the path that the names lead to from `base`,
-- which is a directory.
unfoldable pub make_parents : AbsPath → List Text → Over Tree (Unit {0})
unfolding list_eq nat_eq stat
make_parents base [] t = (ok tt, t)
make_parents base (c ∷ []) t = (ok tt, t)
make_parents base (c ∷ d ∷ rest) t = elim (t (base ++ c ∷ [])) [
  | none ↦ make_parents (base ++ c ∷ []) (d ∷ rest) (put (base ++ c ∷ []) (some dir) t)
  | some n ↦ elim n [
    | file b ↦ (err os_error, t)
    | dir ↦ make_parents (base ++ c ∷ []) (d ∷ rest) t
    | link q ↦ if is_dir t q then make_parents q (d ∷ rest) t else (err os_error, t)
  ]
]

-- `write_bytes`, in a directory that exists; through a link it writes where the link leads.
unfoldable pub write_bytes : AbsPath → Bytes → Over Tree (Unit {0})
unfolding list_eq nat_eq
write_bytes p b t = elim (t p) [
  | none ↦ (ok tt, put p (some (file b)) t)
  | some n ↦ elim n [
    | file old ↦ (ok tt, put p (some (file b)) t)
    | dir ↦ (err os_error, t)
    | link q ↦ elim (t q) [
      | none ↦ (ok tt, put q (some (file b)) t)
      | some m ↦ elim m [
        | file old ↦ (ok tt, put q (some (file b)) t)
        | dir ↦ (err os_error, t)
        | link r ↦ (err os_error, t)
      ]
    ]
  ]
]
