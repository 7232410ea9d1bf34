-- ===== src/Strings/Replace.antt =====
-- `str.count` and `str.replace`, which `edit` of src/forge/services/files_service.py uses.
use xforgebox.Base.{
  ℕ, zero, suc, ◌+◌, ◌-◌, ◌<◌, ◌≡◌, refl, ap, sym, ◌∙◌, Bool, true, false, ◌&&◌, List, [], ◌∷◌,
  ◌++◌, if◌then◌else◌, ◌==◌, nat_eq, length, drop, arith, Bool-cases, inl, inr,
}
use xforgebox.Models.{Text}

unfoldable pub begins : Text → Text → Bool
begins [] text = true
begins (o ∷ old) [] = false
begins (o ∷ old) (c ∷ text) = o == c && begins old text

-- The places of `old` that is not empty, from the left and apart from each other; `skip` is how
-- much of the last place has still to be passed over.
unfoldable pub places : Text → ℕ → Text → ℕ
unfolding begins
places old skip [] = 0
places old (suc skip) (c ∷ text) = places old skip text
places old zero (c ∷ text) =
    let found = suc (places old (length old - 1) text) in
    let rest = places old 0 text in if begins old (c ∷ text) then found else rest

-- `text.count(old)`: an empty text stands before each character and at the end.
unfoldable pub count_in : Text → Text → ℕ
unfolding places
count_in [] text = length text + 1
count_in (o ∷ old) text = places (o ∷ old) 0 text

unfoldable pub put_all : Text → Text → ℕ → Text → Text
unfolding begins
put_all old new skip [] = []
put_all old new (suc skip) (c ∷ text) = put_all old new skip text
put_all old new zero (c ∷ text) =
    let found = new ++ put_all old new (length old - 1) text in
    let rest = c ∷ put_all old new 0 text in if begins old (c ∷ text) then found else rest

unfoldable pub between : Text → Text → Text
between new [] = new
between new (c ∷ text) = new ++ c ∷ between new text

-- `text.replace(old, new)`
unfoldable pub replace_all : Text → Text → Text → Text
unfolding put_all between
replace_all [] new text = between new text
replace_all (o ∷ old) new text = put_all (o ∷ old) new 0 text

-- `text.replace(old, new, 1)`
unfoldable pub replace_one : Text → Text → Text → Text
unfolding begins
replace_one [] new text = new ++ text
replace_one (o ∷ old) new [] = []
replace_one (o ∷ old) new (c ∷ text) =
    let rest = replace_one (o ∷ old) new text in
    if begins (o ∷ old) (c ∷ text) then new ++ drop (length old) text else c ∷ rest

-- A description of both: the parts of the text between the places.
unfoldable pub parts : Text → ℕ → Text → Text × List Text
unfolding begins
parts old skip [] = ([], [])
parts old (suc skip) (c ∷ text) = parts old skip text
parts old zero (c ∷ text) =
    let after = parts old (length old - 1) text in
    let rest = parts old 0 text in
    if begins old (c ∷ text) then ([], after.0 ∷ after.1) else (c ∷ rest.0, rest.1)

-- The parts with a text between each two.
abbrev pub behind : Text → List Text → Text
behind sep [] = []
behind sep (p ∷ ps) = sep ++ (p ++ behind sep ps)

abbrev pub rejoin : Text → Text × List Text → Text
rejoin sep (p, ps) = p ++ behind sep ps

pub begins-drop : (old text : Text) → begins old text ≡ true → text ≡ old ++ drop (length old) text
unfolding begins
begins-drop [] text h = refl
begins-drop (o ∷ old) [] h = ground arith
begins-drop (o ∷ old) (c ∷ text) h = elim (Bool-cases (o == c)) [
  | inl same ↦ ground (arith, begins-drop old text)
  | inr other ↦ ground (arith)
]

drop-cons : (n c : ℕ) (text : Text) → 0 < n → drop n (c ∷ text) ≡ drop (n - 1) text
drop-cons zero c text h = elim h [ ]
drop-cons (suc n) c text h =
    let one_less : n ≡ suc n - 1 = omega arith in ap (λ k. drop k text) one_less

-- `old` between the parts is the text, and another text between them is what `replace` gives.
rejoin-parts :
    (old text : Text) (skip : ℕ)
    → 0 < length old
    → rejoin old (parts old skip text) ≡ drop skip text
unfolding parts
rejoin-parts old [] zero h = refl
rejoin-parts old [] (suc skip) h = refl
rejoin-parts old (c ∷ text) (suc skip) h = rejoin-parts old text skip h
rejoin-parts old (c ∷ text) zero h = elim (Bool-cases (begins old (c ∷ text))) [
  | inl found ↦
      rw (found, rejoin-parts old text (length old - 1) h)
        (sym
          (begins-drop old (c ∷ text) found ∙ ap (λ t. old ++ t) (drop-cons (length old) c text h)))
  | inr other ↦ rw (other, rejoin-parts old text 0 h)
]

put_all-parts :
    (old new text : Text) (skip : ℕ) → put_all old new skip text ≡ rejoin new (parts old skip text)
unfolding parts put_all
put_all-parts old new [] skip = refl
put_all-parts old new (c ∷ text) (suc skip) = put_all-parts old new text skip
put_all-parts old new (c ∷ text) zero = elim (Bool-cases (begins old (c ∷ text))) [
  | inl found ↦ rw (found, put_all-parts old new text (length old - 1))
  | inr other ↦ rw (other, put_all-parts old new text 0)
]

places-parts : (old text : Text) (skip : ℕ) → places old skip text ≡ length (parts old skip text).1
unfolding parts places
places-parts old [] skip = refl
places-parts old (c ∷ text) (suc skip) = places-parts old text skip
places-parts old (c ∷ text) zero = elim (Bool-cases (begins old (c ∷ text))) [
  | inl found ↦ rw (found, places-parts old text (length old - 1))
  | inr other ↦ rw (other, places-parts old text 0)
]

put_all-none :
    (old new text : Text) (skip : ℕ)
    → places old skip text ≡ 0
    → put_all old new skip text ≡ drop skip text
unfolding places put_all
put_all-none old new [] zero h = refl
put_all-none old new [] (suc skip) h = refl
put_all-none old new (c ∷ text) (suc skip) h = put_all-none old new text skip h
put_all-none old new (c ∷ text) zero h = elim (Bool-cases (begins old (c ∷ text))) [
  | inl found ↦ ground (arith)
  | inr other ↦ ground (arith, put_all-none old new text 0)
]

-- Where the place is the only one, to replace the first is to replace all.
replace_one-only :
    (old new text : Text)
    → 0 < length old
    → places old 0 text ≡ 1
    → replace_one old new text ≡ put_all old new 0 text
unfolding places put_all replace_one
replace_one-only [] new text h one = elim h [ ]
replace_one-only (o ∷ old) new [] h one = refl
replace_one-only (o ∷ old) new (c ∷ text) h one = elim (Bool-cases (begins (o ∷ old) (c ∷ text))) [
  | inl found ↦
      let passed : suc (length old) - 1 ≡ length old = omega arith in
      ground (arith, passed, put_all-none (o ∷ old) new text (length old))
  | inr other ↦ ground (arith, replace_one-only (o ∷ old) new text h)
]

-- The parts between the places of a text that is not empty: with it between them they are the
-- original, with another they are what `replace` gives, and there is one less place than parts.
pub replace-rejoin :
    (old new text : Text)
    → 0 < length old
    → let ps = parts old 0 text in
      (rejoin old ps ≡ text)
      × (count_in old text ≡ length ps.1)
      × (replace_all old new text ≡ rejoin new ps)
      × (count_in old text ≡ 1 → replace_one old new text ≡ rejoin new ps)
unfolding count_in replace_all
replace-rejoin [] new text h = elim h [ ]
replace-rejoin (o ∷ old) new text h = (
  rejoin-parts (o ∷ old) text 0 h,
  places-parts (o ∷ old) text 0,
  put_all-parts (o ∷ old) new text 0,
  λ one. replace_one-only (o ∷ old) new text h one ∙ put_all-parts (o ∷ old) new text 0,
)
