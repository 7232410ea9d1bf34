-- ===== src/Services/Files/Leaks.antt =====
-- Links that leave a workspace, in src/forge/services/files_service.py.
use xforgebox.Base.{
  ℕ, suc, ◌+◌, ◌≤◌, max, String, Bool, true, false, Option, none, some, List, [], ◌∷◌, ◌++◌, nat_eq,
  list_eq, ◌≡◌, refl, sym, ap, ◌∙◌, contains, length, append_assoc, if◌then◌else◌, arith, take-all,
}
use xforgebox.Errors.{ok, err, path_escape_error}
use xforgebox.Models.{Text, ℤ}
use xforgebox.Strings.Lines.{bare_lines}
use xforgebox.Strings.Utf8.{Bytes, decode}
use xforgebox.Services.Files.Paths.{AbsPath, components, is_absolute, relative_to}
use xforgebox.Services.Files.Host.{file, link, Tree, Os, stat, is_file, read_bytes}
use xforgebox.Services.Files.Ops.{workspace_root, ensure_within, resolve, resolve_for_read, read}
use xforgebox.Services.Files.Search.{Patterns, GrepMatch, visible, searched, walk, grep}
use xforgebox.Services.Files.Found.{line_matches, all_matches, grep-take}

-- The matches of lines around a line that is found.
line_matches-middle :
    (finds : Text → Bool) (rel : Text) (n : ℕ) (above below : List Text) (l : Text)
    → finds l ≡ true
    → (front back : List GrepMatch) × (line_matches finds rel n (above ++ l ∷ below)
        ≡ front ++ record { path = rel; line = n + length above; text = l } ∷ back)
unfolding line_matches
line_matches-middle finds rel n [] below l found =
    let same : n + 0 ≡ n = omega arith in
    ([], line_matches finds rel (suc n) below, rw (found, same) refl)
line_matches-middle finds rel n (x ∷ above) below l found =
    let (front, back, e) = line_matches-middle finds rel (suc n) above below l found in
    let same : suc n + length above ≡ n + suc (length above) = omega arith in
    let here : List GrepMatch =
      if finds x then record { path = rel; line = n; text = x } ∷ [] else [] in
    let m : ℕ → List GrepMatch = λ k. record { path = rel; line = k; text = l } ∷ back in
    (
      here ++ front,
      back,
      ap (λ r. here ++ r) (e ∙ ap (λ k. front ++ m k) same)
          ∙ sym (append_assoc here front (m (n + suc (length above)))),
    )

-- The matches of files around one that has some.
all_matches-middle :
    (finds : Text → Bool) (lines : AbsPath → Option (Text × List Text))
    (before after : List AbsPath) (p : AbsPath) (rel : Text) (ls : List Text)
    → lines p ≡ some (rel, ls)
    → (front back : List GrepMatch) × (all_matches finds lines (before ++ p ∷ after)
        ≡ front ++ (line_matches finds rel 1 ls ++ back))
unfolding all_matches
all_matches-middle finds lines [] after p rel ls e = ([], all_matches finds lines after, rw e refl)
all_matches-middle finds lines (q ∷ before) after p rel ls e =
    let (front, back, h) = all_matches-middle finds lines before after p rel ls e in
    let here : List GrepMatch = elim (lines q) [
      | none ↦ []
      | some found ↦ line_matches finds (found.0) 1 (found.1)
    ] in
    (
      here ++ front,
      back,
      ap (λ r. here ++ r) h ∙ sym (append_assoc here front (line_matches finds rel 1 ls ++ back)),
    )

module _ (re : Patterns) (os : Os) (ws : String) (pattern : Text) (path rel : Text) (t : Tree)
    (root p q : AbsPath) (raw : Bytes) (finds : Text → Bool) where
  -- A link at `p`, with the path `path` in the workspace, leads to the file `q` outside it, which has
  -- no zero byte; `os.walk` comes to it, and the pattern compiles.
  pub record LeadsOut (before after : List AbsPath) : Type 0 where
    pub compiled : re.compile pattern ≡ some finds
    pub rooted : workspace_root os ws t ≡ ok root
    pub relative : is_absolute path ≡ false
    pub resolved : os.realpath t root (components path) ≡ ok q
    pub outside : relative_to root q ≡ none
    pub linked : t p ≡ some (link q)
    pub shown : visible root p ≡ some rel
    pub stored : t q ≡ some (file raw)
    pub text : contains raw 0 ≡ false
    pub walked : walk (os.visits t root) ≡ before ++ p ∷ after

  searched-link :
      {before after : List AbsPath}
      → LeadsOut before after
      → searched re none root t p ≡ some (rel, bare_lines (decode raw))
  unfolding searched stat
  searched-link h =
      let is_there : is_file t p ≡ true = rw (is_file, stat, h.linked, h.stored) refl in
      let got : read_bytes t p ≡ ok raw = rw (read_bytes, stat, h.linked, h.stored) refl in
      rw (searched, is_there, h.shown, got, h.text) refl

  -- A link in a workspace to a text file outside it: `read` refuses its path, but `grep` (with no
  -- `path_glob`, and as many matches allowed as there are) returns each of its lines that the pattern
  -- finds, with its number.
  pub grep_follows_link :
      (before after : List AbsPath) (above below : List Text) (l : Text) (offset : ℤ)
      (limit : Option ℕ) (max_bytes most : ℕ)
      → LeadsOut before after
      → bare_lines (decode raw) ≡ above ++ l ∷ below
      → finds l ≡ true
      → length (all_matches finds (searched re none root t) (walk (os.visits t root))) ≤ most
      → (read os ws path offset limit max_bytes t ≡ err path_escape_error)
        × ((front back : List GrepMatch) × (grep re os ws pattern none most t
              ≡ ok (front ++ record { path = rel; line = 1 + length above; text = l } ∷ back)))
  unfolding read resolve_for_read resolve ensure_within
  grep_follows_link before after above below l offset limit max_bytes most h has found room =
      let (f1, b1, e1) = line_matches-middle finds rel 1 above below l found in
      let (f2, b2, e2) =
        all_matches-middle finds (searched re none root t) before after p rel
          (bare_lines (decode raw)) (searched-link h) in
      let m : GrepMatch = record { path = rel; line = 1 + length above; text = l } in
      let all = all_matches finds (searched re none root t) (walk (os.visits t root)) in
      let split : all ≡ f2 ++ ((f1 ++ m ∷ b1) ++ b2) =
        ap (all_matches finds (searched re none root t)) h.walked
        ∙ e2
        ∙ ap (λ r. f2 ++ (r ++ b2)) (ap (line_matches finds rel 1) has ∙ e1) in
      let flat : f2 ++ ((f1 ++ m ∷ b1) ++ b2) ≡ (f2 ++ f1) ++ m ∷ (b1 ++ b2) =
        ap (λ r. f2 ++ r) (append_assoc f1 (m ∷ b1) b2)
        ∙ sym (append_assoc f2 f1 (m ∷ (b1 ++ b2))) in
      (
        rw
            (
              read, resolve_for_read, resolve, h.relative, h.rooted, h.resolved, ensure_within,
              h.outside,
            )
            refl,
        (
          f2 ++ f1,
          b1 ++ b2,
          grep-take re os ws pattern none most t finds root h.compiled h.rooted
              ∙ ap ok (take-all (max 1 most) all (omega (arith, room)) ∙ split ∙ flat),
        ),
      )
