-- ===== src/Services/Files/Pages.antt =====
-- `read` of src/forge/services/files_service.py, page by page.
use xforgebox.Base.{
  ℕ, zero, suc, ◌+◌, ◌<◌, ◌≤◌, String, Bool, false, not, ◌||◌, Option, none, some, List, ◌++◌,
  if◌then◌else◌, nat_eq, ◌≡◌, refl, sym, ap, ◌∙◌, arith, Bool-cases, inl, inr, ltb, length,
  length-drop, take, drop, contains, take-append-drop, drop-drop, take-all, not-ltb→le,
}
use xforgebox.Errors.{Result, ok, err, ◌>>=◌, bind-ok, err-ne-ok, runtime_error}
use xforgebox.Models.{Text, ℤ, pos}
use xforgebox.Strings.Lines.{split_lines, join, join-append}
use xforgebox.Strings.Utf8.{decode}
use xforgebox.Services.Files.Host.{Tree, Os, exists, is_dir, read_bytes}
use xforgebox.Services.Files.Ops.{resolve_for_read, window, page, read}

-- What has been read, with the rest if there is more.
abbrev and_then : Result Text → Text × ℕ × Bool → Result Text
and_then rest (content, total, truncated) =
    if truncated then (rest >>= λ more. ok (content ++ more)) else ok content

-- A reader who starts at `offset` and goes on as long as `read` says that there is more, with at
-- most `n` calls.
unfoldable pub read_on : Os → String → Text → ℕ → ℕ → ℕ → ℕ → Tree → Result Text
unfolding read
read_on os ws path limit max zero offset t = err runtime_error
read_on os ws path limit max (suc n) offset t =
    let rest = read_on os ws path limit max n (offset + limit) t in
    read os ws path (pos offset) (some limit) max t >>= and_then rest

-- A file that can be read has lines, of which each call of `read` gives a page.
pub read-lines :
    (os : Os) (ws : String) (path : Text) (max : ℕ) (t : Tree) (offset : ℤ) (limit : Option ℕ)
    (out : Text × ℕ × Bool)
    → read os ws path offset limit max t ≡ ok out
    → (lines : List Text) × ((o : ℤ) (l : Option ℕ) → read os ws path o l max t ≡ page o l lines)
unfolding read
read-lines os ws path max t offset limit out h =
    let (target, r, h1) = bind-ok (resolve_for_read os ws path t) _ out h in
    elim (Bool-cases (not (exists t target) || is_dir t target)) [
      | inl unreadable ↦ absurd (err-ne-ok _ out (rw unreadable at h1))
      | inr readable ↦
          let (raw, b, h2) = bind-ok (read_bytes t target) _ out (rw readable at h1) in
          elim (Bool-cases (ltb max (length raw) || contains raw 0)) [
            | inl refused ↦ absurd (err-ne-ok _ out (rw refused at h2))
            | inr fine ↦ (split_lines (decode raw), λ o l. rw (read, r, readable, b, fine) refl)
          ]
    ]

module _ (lines : List Text) (offset limit : ℕ) where
  window-next :
      join (window offset (some limit) lines) ++ join (drop (offset + limit) lines)
      ≡ join (drop offset lines)
  unfolding window
  window-next =
      ap (λ ls. join (take limit (drop offset lines)) ++ join ls) (drop-drop offset limit lines)
      ∙ sym (join-append (take limit (drop offset lines)) (drop limit (drop offset lines)))
      ∙ ap join (take-append-drop limit (drop offset lines))

  window-last :
      length lines ≤ offset + limit
      → join (window offset (some limit) lines) ≡ join (drop offset lines)
  unfolding window
  window-last h =
      ap join (take-all limit (drop offset lines) (omega (arith, h, length-drop offset lines)))

module _ (os : Os) (ws : String) (path : Text) (limit : ℕ) (max : ℕ) (t : Tree) (lines : List Text)
    (paged : (o : ℤ) (l : Option ℕ) → read os ws path o l max t ≡ page o l lines) where
  last-page :
      (n offset : ℕ)
      → ltb (offset + limit) (length lines) ≡ false
      → read_on os ws path limit max (suc n) offset t ≡ ok (join (drop offset lines))
  unfolding read_on page
  last-page n offset last =
      rw (read_on, paged (pos offset) (some limit), page, last)
        (ap ok (window-last lines offset limit (not-ltb→le (offset + limit) (length lines) last)))

  all-pages :
      0 < limit
      → (n offset : ℕ) → length lines < offset + suc n
      → read_on os ws path limit max (suc n) offset t ≡ ok (join (drop offset lines))
  unfolding read_on page
  all-pages positive zero offset enough = last-page 0 offset (ground arith)
  all-pages positive (suc n) offset enough =
      elim (Bool-cases (ltb (offset + limit) (length lines))) [
        | inr last ↦ last-page (suc n) offset last
        | inl more ↦
            let rest = all-pages positive n (offset + limit) (omega arith) in
            rw (read_on, paged (pos offset) (some limit), page, more, rest)
              (ap ok (window-next lines offset limit))
      ]

page-whole :
    (lines : List Text) (text : Text) (total : ℕ) (cut : Bool)
    → page (pos 0) none lines ≡ ok (text, total, cut)
    → (join lines ≡ text) × (length lines ≡ total)
unfolding page window
page-whole lines text total cut h = (ground arith, ground arith)

-- Whoever reads a file by pages of any size that is not 0, and goes on where the last page ended as
-- long as it was truncated, comes to an end after at most one call more than there are lines, and
-- has the text that one call without a limit returns.
pub read_on-read :
    (os : Os) (ws : String) (path : Text) (limit max total : ℕ) (text : Text) (cut : Bool)
    (t : Tree)
    → 0 < limit
    → read os ws path (pos 0) none max t ≡ ok (text, total, cut)
    → read_on os ws path limit max (suc total) 0 t ≡ ok text
read_on-read os ws path limit max total text cut t positive h =
    let (lines, paged) = read-lines os ws path max t (pos 0) none (text, total, cut) h in
    let (same, size) = page-whole lines text total cut (sym (paged (pos 0) none) ∙ h) in
    all-pages os ws path limit max t lines paged positive total 0 (omega (arith, size)) ∙ ap ok same
