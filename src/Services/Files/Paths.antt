-- ===== src/Services/Files/Paths.antt =====
-- Paths as their components, and the order of names: what `pathlib` does without asking the disk.
use xforgebox.Base.{
  ℕ, String, Bool, true, false, ◌||◌, ◌&&◌, Option, none, some, List, [], ◌∷◌, ◌++◌, if◌then◌else◌,
  ◌==◌, nat_eq, list_eq, ltb, ◌≡◌, refl, arith,
}
use xforgebox.Models.{Text}
use Prim.Native.Char.{code}

-- A path from the root of the disk.
abbrev pub AbsPath : Type 0
AbsPath = List Text

-- The code points of a native text.
abbrev pub codes : String → Text
codes String.[] = []
codes (String.◌∷◌ c s) = code c ∷ codes s

-- `FORGE_META_DIR`
abbrev pub forge_meta_dir : Text
forge_meta_dir = codes ".forge"

unfoldable pub into_first : ℕ → List Text → List Text
into_first c [] = (c ∷ []) ∷ []
into_first c (t ∷ ts) = (c ∷ t) ∷ ts

-- `text.split(sep)` for one character.
unfoldable pub split_on : ℕ → Text → List Text
unfolding into_first nat_eq
split_on sep [] = [] ∷ []
split_on sep (c ∷ cs) =
    let rest = split_on sep cs in if c == sep then [] ∷ rest else into_first c rest

-- `PurePosixPath(text)`: empty components and `.` are left out, `..` stays.
unfoldable pub components : Text → List Text
unfolding split_on
components text = without_dots (split_on b'/' text)
  where
    without_dots : List Text → List Text
    without_dots [] = []
    without_dots (t ∷ ts) =
        let rest = without_dots ts in if t == [] || t == b'.' ∷ [] then rest else t ∷ rest

unfoldable pub is_absolute : Text → Bool
unfolding nat_eq
is_absolute [] = false
is_absolute (c ∷ cs) = c == b'/'

-- `path.as_posix()` of a relative path.
unfoldable pub as_posix : List Text → Text
as_posix [] = b'.' ∷ []
as_posix (t ∷ []) = t
as_posix (t ∷ u ∷ ts) = t ++ b'/' ∷ as_posix (u ∷ ts)

-- `path.relative_to(root)`
unfoldable pub relative_to : AbsPath → AbsPath → Option (List Text)
unfolding list_eq nat_eq
relative_to [] p = some p
relative_to (r ∷ rs) [] = none
relative_to (r ∷ rs) (c ∷ p) = let rest = relative_to rs p in if r == c then rest else none

-- Is a path relative to the workspace one of the reserved directory?
unfoldable pub is_reserved : List Text → Bool
unfolding list_eq nat_eq
is_reserved [] = false
is_reserved (c ∷ cs) = c == forge_meta_dir

pub relative_to-append : (root p rel : AbsPath) → relative_to root p ≡ some rel → p ≡ root ++ rel
unfolding relative_to
relative_to-append [] p rel h = ground arith
relative_to-append (r ∷ rs) [] rel h = ground arith
relative_to-append (r ∷ rs) (c ∷ p) rel h = ground (arith, relative_to-append rs p rel)

pub relative_to-prefix : (root rel : AbsPath) → relative_to root (root ++ rel) ≡ some rel
unfolding relative_to
relative_to-prefix [] rel = refl
relative_to-prefix (r ∷ rs) rel = ground (arith, relative_to-prefix rs rel)

-- The order of Python on names.
unfoldable pub precedes : Text → Text → Bool
unfolding nat_eq
precedes [] b = true
precedes (x ∷ a) [] = false
precedes (x ∷ a) (y ∷ b) = let rest = precedes a b in ltb x y || (x == y && rest)

unfoldable pub insert : Text → List Text → List Text
unfolding precedes
insert t [] = t ∷ []
insert t (u ∷ us) = let rest = insert t us in if precedes t u then t ∷ u ∷ us else u ∷ rest

-- `sorted(names)`
unfoldable pub sort : List Text → List Text
unfolding insert
sort [] = []
sort (t ∷ ts) = insert t (sort ts)
