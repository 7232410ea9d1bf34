-- ===== src/Strings/Lines.antt =====
-- `str.splitlines`, which `read` and `grep` of src/forge/services/files_service.py use.
use xforgebox.Base.{
  ℕ, ◌≡◌, refl, ap, Bool, false, not, ◌&&◌, List, [], ◌∷◌, ◌++◌, if◌then◌else◌, ◌==◌, nat_eq,
  contains, map, Bool-cases, inl, inr, append_assoc,
}
use xforgebox.Models.{Text}

-- The characters that end a line for `str`, and not for `bytes`.
abbrev pub breaks : List ℕ
breaks = 10 ∷ 11 ∷ 12 ∷ 13 ∷ 28 ∷ 29 ∷ 30 ∷ 133 ∷ 8232 ∷ 8233 ∷ []

unfoldable pub is_break : ℕ → Bool
unfolding nat_eq
is_break c = contains breaks c

abbrev pub starts_lf : Text → Bool
starts_lf [] = false
starts_lf (c ∷ cs) = c == 10

-- A character in front of the first line.
unfoldable pub glue : ℕ → List Text → List Text
glue c [] = (c ∷ []) ∷ []
glue c (l ∷ ls) = (c ∷ l) ∷ ls

-- `text.splitlines(keepends=True)`: a carriage return stays with the line feed behind it.
unfoldable pub split_lines : Text → List Text
unfolding is_break glue
split_lines [] = []
split_lines (c ∷ cs) =
    let rest = split_lines cs in
    if is_break c && not (c == 13 && starts_lf cs) then (c ∷ []) ∷ rest else glue c rest

-- `text.splitlines()`: a line up to its end.
unfoldable pub without_end : Text → Text
unfolding is_break
without_end [] = []
without_end (c ∷ cs) = let rest = without_end cs in if is_break c then [] else c ∷ rest

unfoldable pub bare_lines : Text → List Text
unfolding split_lines without_end
bare_lines text = map without_end (split_lines text)

-- `"".join(lines)`
unfoldable pub join : List Text → Text
join [] = []
join (l ∷ ls) = l ++ join ls

pub join-glue : (c : ℕ) (ls : List Text) → join (glue c ls) ≡ c ∷ join ls
unfolding join glue
join-glue c [] = refl
join-glue c (l ∷ ls) = refl

-- The lines with their ends are the text.
pub join-split_lines : (text : Text) → join (split_lines text) ≡ text
unfolding split_lines join
join-split_lines [] = refl
join-split_lines (c ∷ cs) = elim (Bool-cases (is_break c && not (c == 13 && starts_lf cs))) [
  | inl ends ↦ rw ends (ap (◌∷◌ c) (join-split_lines cs))
  | inr goes_on ↦ rw (goes_on, join-glue c (split_lines cs), join-split_lines cs)
]

pub join-append : (ls ms : List Text) → join (ls ++ ms) ≡ join ls ++ join ms
unfolding join
join-append [] ms = refl
join-append (l ∷ ls) ms = rw (join-append ls ms, append_assoc l (join ls) (join ms))
