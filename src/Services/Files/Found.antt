-- ===== src/Services/Files/Found.antt =====
-- What `grep` of src/forge/services/files_service.py finds.
use xforgebox.Base.{
  ℕ, suc, ◌<◌, ◌≤◌, max, String, Bool, true, false, Option, none, some, List, [], ◌∷◌, ◌++◌,
  append-nil, append_assoc, if◌then◌else◌, ◌≡◌, refl, sym, ap, ◌∙◌, arith, Bool-cases, Option-cases,
  inl, inr, leb, leb→le, length, length-append, take, take-all, take-append_le, subst,
}
use xforgebox.Errors.{ok}
use xforgebox.Models.{Text}
use xforgebox.Services.Files.Paths.{AbsPath}
use xforgebox.Services.Files.Host.{Tree, Os}
use xforgebox.Services.Files.Ops.{workspace_root}
use xforgebox.Services.Files.Search.{
  Patterns, GrepMatch, walk, searched, grep_lines, grep_paths, grep,
}

-- A description of the matches: in the order of the files, and in each of its lines.
unfoldable pub line_matches : (Text → Bool) → Text → ℕ → List Text → List GrepMatch
line_matches finds rel n [] = []
line_matches finds rel n (l ∷ ls) =
    (if finds l then record { path = rel; line = n; text = l } ∷ [] else [])
    ++ line_matches finds rel (suc n) ls

unfoldable pub all_matches :
    (Text → Bool) → (AbsPath → Option (Text × List Text)) → List AbsPath → List GrepMatch
unfolding line_matches
all_matches finds lines [] = []
all_matches finds lines (p ∷ ps) =
    elim (lines p) [ none ↦ [] | some file ↦ line_matches finds (file.0) 1 (file.1) ]
    ++ all_matches finds lines ps

-- The results are the first of all matches, as many as are allowed, or all and fewer than that.
abbrev IsCut : ℕ → Bool → List GrepMatch → List GrepMatch → Type 0
IsCut most done results all =
    (results ≡ take (max 1 most) all)
    × (done ≡ true → max 1 most ≤ length all)
    × (done ≡ false → (length all < max 1 most) × (results ≡ all))

all-IsCut : (most : ℕ) (all : List GrepMatch) → length all < max 1 most → IsCut most false all all
all-IsCut most all h =
    (sym (take-all (max 1 most) all (omega (arith, h))), (λ e. ground arith), λ _. (h, refl))

full-IsCut :
    (most : ℕ) (more rest all : List GrepMatch)
    → max 1 most ≡ length more
    → more ++ rest ≡ all
    → IsCut most true more all
full-IsCut most more rest all size h = rw (sym h) (
  sym (
      take-append_le (max 1 most) more rest (omega (arith, size))
      ∙ take-all (max 1 most) more (omega (arith, size))),
  (λ _. omega (arith, size, length-append more rest)),
  λ e. ground arith,
)

module _ (finds : Text → Bool) (most : ℕ) where
  -- With fewer results than allowed the loop over lines adds the matches up to that number, and
  -- returns exactly if it has come to it.
  lines-IsCut :
      (rel : Text) (n : ℕ) (results : List GrepMatch) (ls : List Text)
      → length results < max 1 most
      → let out = grep_lines finds most rel n results ls in
        IsCut most out.0 out.1 (results ++ line_matches finds rel n ls)
  unfolding grep_lines line_matches
  lines-IsCut rel n results [] h = rw (append-nil results) (all-IsCut most results h)
  lines-IsCut rel n results (l ∷ ls) h =
      let m : GrepMatch = record { path = rel; line = n; text = l } in
      let more : List GrepMatch = results ++ m ∷ [] in
      let rest : List GrepMatch = line_matches finds rel (suc n) ls in
      let longer : length more ≡ suc (length results) =
        omega (arith, length-append results (m ∷ [])) in
      elim (Bool-cases (finds l)) [
        | inr missed ↦ rw (missed, append-nil results) (lines-IsCut rel (suc n) results ls h)
        | inl found ↦ elim (Bool-cases (leb most (length more))) [
          | inl full ↦
              let size : max 1 most ≡ length more =
                omega (arith, h, longer, leb→le most (length more) full) in
              rw (found, full)
                (full-IsCut most more rest (results ++ (m ∷ [] ++ rest)) size
                  (append_assoc results (m ∷ []) rest))
          | inr room ↦
              let fits : length more < max 1 most = ground arith in
              let out = grep_lines finds most rel (suc n) more ls in
              rw (found, room)
                (subst (IsCut most out.0 out.1) (append_assoc results (m ∷ []) rest)
                  (lines-IsCut rel (suc n) more ls fits))
        ]
      ]

  paths-take :
      (lines : AbsPath → Option (Text × List Text)) (results : List GrepMatch) (ps : List AbsPath)
      → length results < max 1 most
      → grep_paths finds most lines results ps
        ≡ take (max 1 most) (results ++ all_matches finds lines ps)
  unfolding grep_paths all_matches
  paths-take lines results [] h =
      rw (append-nil results) (sym (take-all (max 1 most) results (omega (arith, h))))
  paths-take lines results (p ∷ ps) h = elim (Option-cases (lines p)) [
    | inl skipped ↦ rw skipped (paths-take lines results ps h)
    | inr ((rel, ls), file) ↦
        let out = grep_lines finds most rel 1 results ls in
        let here : List GrepMatch = line_matches finds rel 1 ls in
        let later : List GrepMatch = all_matches finds lines ps in
        let (first, enough, fewer) = lines-IsCut rel 1 results ls h in
        let split = append_assoc results here later in
        elim (Bool-cases out.0) [
          | inl done ↦
              rw (file, done)
                (first
                  ∙ sym (take-append_le (max 1 most) (results ++ here) later (enough done))
                  ∙ ap (take (max 1 most)) split)
          | inr goes_on ↦
              let (room, all) = fewer goes_on in
              rw (file, goes_on)
                (paths-take lines out.1 ps (rw all room)
                  ∙ ap (λ rs. take (max 1 most) (rs ++ later)) all
                  ∙ ap (take (max 1 most)) split)
        ]
  ]

-- For a pattern that compiles and a workspace that is there, `grep` returns the matches in the order
-- of the files and of their lines, as many as `max_matches` allows, or one if that is 0.
pub grep-take :
    (re : Patterns) (os : Os) (ws : String) (pattern : Text) (path_glob : Option Text) (most : ℕ)
    (t : Tree) (finds : Text → Bool) (root : AbsPath)
    → re.compile pattern ≡ some finds
    → workspace_root os ws t ≡ ok root
    → grep re os ws pattern path_glob most t
      ≡ ok (
          take
            (max 1 most)
            (all_matches finds (searched re path_glob root t) (walk (os.visits t root))))
unfolding grep
grep-take re os ws pattern path_glob most t finds root compiled there =
    rw (grep, compiled, there)
      (ap ok (
        paths-take finds most (searched re path_glob root t) [] (walk (os.visits t root))
          (omega arith)))
