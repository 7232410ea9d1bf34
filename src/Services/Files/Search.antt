-- ===== src/Services/Files/Search.antt =====
-- `glob`, `grep` and the helpers `_walk`, `_glob_match` and `_glob_to_regex` of
-- src/forge/services/files_service.py. Regular expressions and `fnmatch` are arguments.
use xforgebox.Base.{
  ℕ, suc, String, Bool, true, false, not, ◌||◌, ◌&&◌, Option, none, some, List, [], ◌∷◌, ◌++◌, map,
  if◌then◌else◌, ◌==◌, nat_eq, list_eq, leb, length, contains,
}
use xforgebox.Errors.{Result, ok, err, ◌>>=◌, workspace_error}
use xforgebox.Models.{Text}
use xforgebox.Strings.Lines.{bare_lines}
use xforgebox.Strings.Replace.{begins}
use xforgebox.Strings.Utf8.{Bytes, decode}
use xforgebox.Services.Files.Paths.{
  AbsPath, codes, split_on, as_posix, relative_to, is_reserved, sort,
}
use xforgebox.Services.Files.Host.{Tree, Os, Visit, stat, is_file, read_bytes}
use xforgebox.Services.Files.Ops.{workspace_root}

-- `re.compile`, which refuses some patterns, with `search`; `fullmatch`; and `fnmatch`.
pub record Patterns : Type 0 where
  pub compile : Text → Option (Text → Bool)
  pub fullmatch : Text → Text → Bool
  pub fnmatchcase : Text → Text → Bool
  pub translate : Text → Text

-- `GrepMatch`
pub record GrepMatch : Type 0 where
  pub path : Text
  pub line : ℕ
  pub text : Text

abbrev below : AbsPath → List Text → List AbsPath
below base names = map (λ n. base ++ n ∷ []) (sort names)

-- `_walk`: the files and then the directories of each directory that `os.walk` visits.
unfoldable pub walk : List Visit → List AbsPath
unfolding sort
walk [] = []
walk (v ∷ vs) = below v.base v.files ++ below v.base v.dirs ++ walk vs

-- `part in text`
unfoldable pub occurs : Text → Text → Bool
unfolding begins
occurs part [] = begins part []
occurs part (c ∷ text) = begins part (c ∷ text) || occurs part text

-- `text.endswith(suffix)` and `text.removesuffix(suffix)`, for a suffix that is not empty.
unfoldable pub ends : Text → Text → Bool
unfolding list_eq nat_eq
ends suffix [] = false
ends suffix (c ∷ text) = c ∷ text == suffix || ends suffix text

unfoldable pub without_suffix : Text → Text → Text
unfolding list_eq nat_eq
without_suffix suffix [] = []
without_suffix suffix (c ∷ text) =
    let rest = c ∷ without_suffix suffix text in if c ∷ text == suffix then [] else rest

abbrev any_depth : Text
any_depth = codes "**"

-- A component that is not `**`, and a slash behind it if another follows.
unfoldable pub component_regex : Patterns → Text → Text
unfolding without_suffix
component_regex re part =
    without_suffix (codes "\\z") (without_suffix (codes "\\Z") (re.translate part))

unfoldable pub with_slash : Text → Text
unfolding ends
with_slash piece =
    if ends (codes "/") piece || ends (codes "?") piece then piece else piece ++ codes "/"

unfoldable pub regex_parts : Patterns → List Text → Text
unfolding component_regex with_slash list_eq nat_eq
regex_parts re [] = []
regex_parts re (part ∷ []) = if part == any_depth then codes ".*" else component_regex re part
regex_parts re (part ∷ next ∷ parts) =
    let rest = regex_parts re (next ∷ parts) in
    (if part == any_depth then codes "(?:.*/)?" else with_slash (component_regex re part)) ++ rest

-- `re.sub(r"/+", "/", joined)`
unfoldable pub single_slashes : Bool → Text → Text
unfolding nat_eq
single_slashes after [] = []
single_slashes after (c ∷ cs) =
    let rest = single_slashes (c == b'/') cs in if after && c == b'/' then rest else c ∷ rest

-- `_glob_to_regex`
unfoldable pub glob_to_regex : Patterns → Text → Text
unfolding regex_parts single_slashes split_on
glob_to_regex re pattern =
    single_slashes false (regex_parts re (split_on b'/' pattern)) ++ codes "\\Z"

-- `_glob_match`
unfoldable pub glob_match : Patterns → Text → Text → Bool
unfolding glob_to_regex occurs list_eq nat_eq
glob_match re rel pattern =
    if pattern == any_depth || pattern == codes "**/*"
    then true
    else if occurs any_depth pattern
    then re.fullmatch (glob_to_regex re pattern) rel
    else re.fnmatchcase rel pattern

-- `pattern.lstrip("./")`
unfoldable pub lstrip : List ℕ → Text → Text
unfolding nat_eq
lstrip drops [] = []
lstrip drops (c ∷ cs) = let rest = lstrip drops cs in if contains drops c then rest else c ∷ cs

-- The path of what `_walk` yields, as users see it, unless it is reserved. All are in the root.
unfoldable pub visible : AbsPath → AbsPath → Option Text
unfolding relative_to is_reserved as_posix
visible root p = elim (relative_to root p) [
  | none ↦ none
  | some rel ↦ if is_reserved rel then none else some (as_posix rel)
]

-- The loop of `glob`.
unfoldable pub glob_paths : (Text → Bool) → ℕ → AbsPath → List Text → List AbsPath → List Text
unfolding visible
glob_paths matches most root found [] = found
glob_paths matches most root found (p ∷ ps) =
    let hit : List Text = elim (visible root p) [
      | none ↦ []
      | some rel ↦ if matches rel then rel ∷ [] else []
    ] in
    let more = found ++ hit in
    let rest = glob_paths matches most root more ps in
    if not (length hit == 0) && leb most (length more) then more else rest

abbrev pub max_glob_matches : ℕ
max_glob_matches = 5000

-- `glob`
unfoldable pub glob : Patterns → Os → String → Text → Tree → Result (List Text)
unfolding workspace_root lstrip glob_match glob_paths walk sort
glob re os ws pattern t = workspace_root os ws t >>= λ root.
    let matches : Text → Bool = λ rel. glob_match re rel (lstrip (codes "./") pattern) in
    ok (sort (glob_paths matches max_glob_matches root [] (walk (os.visits t root))))

-- The path and the lines of a file that is to be searched, unless it has a zero byte.
abbrev text_lines : Text → Bytes → Option (Text × List Text)
text_lines rel raw = if contains raw 0 then none else some (rel, bare_lines (decode raw))

unfoldable pub searched :
    Patterns → Option Text → AbsPath → Tree → AbsPath → Option (Text × List Text)
unfolding visible glob_match stat nat_eq decode bare_lines
searched re path_glob root t p =
    let chosen : Text → Bool =
      λ rel. elim path_glob [ none ↦ true | some g ↦ glob_match re rel g ] in
    if not (is_file t p) then none else elim (visible root p) [
      | none ↦ none
      | some rel ↦
          if not (chosen rel)
          then none
          else elim (read_bytes t p) [ ok raw ↦ text_lines rel raw | err e ↦ none ]
    ]

-- The inner loop of `grep`: did it return, and the results so far.
unfoldable pub grep_lines :
    (Text → Bool) → ℕ → Text → ℕ → List GrepMatch → List Text → Bool × List GrepMatch
grep_lines finds most rel n results [] = (false, results)
grep_lines finds most rel n results (l ∷ ls) =
    let hit = if finds l then record { path = rel; line = n; text = l } ∷ [] else [] in
    let more = results ++ hit in
    let rest = grep_lines finds most rel (suc n) more ls in
    if finds l && leb most (length more) then (true, more) else rest

-- The outer loop.
unfoldable pub grep_paths :
    (Text → Bool)
    → ℕ
    → (AbsPath → Option (Text × List Text))
    → List GrepMatch
    → List AbsPath
    → List GrepMatch
unfolding grep_lines
grep_paths finds most lines results [] = results
grep_paths finds most lines results (p ∷ ps) =
    let out : Bool × List GrepMatch = elim (lines p) [
      | none ↦ (false, results)
      | some file ↦ grep_lines finds most (file.0) 1 results (file.1)
    ] in
    let rest = grep_paths finds most lines out.1 ps in if out.0 then out.1 else rest

-- `grep`
unfoldable pub grep :
    Patterns → Os → String → Text → Option Text → ℕ → Tree → Result (List GrepMatch)
unfolding workspace_root searched grep_paths walk
grep re os ws pattern path_glob max_matches t = elim (re.compile pattern) [
  | none ↦ err workspace_error
  | some finds ↦ workspace_root os ws t >>= λ root.
      ok (grep_paths finds max_matches (searched re path_glob root t) [] (walk (os.visits t root)))
]
