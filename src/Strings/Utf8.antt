-- ===== src/Strings/Utf8.antt =====
-- UTF-8 as Python encodes it, and as it decodes it with `errors="replace"` or strictly. The files
-- service and the docker driver read bytes in this way.
pub mod Decode
use xforgebox.Base.{
  ℕ, zero, suc, ◌+◌, ◌-◌, ◌*◌, ◌/◌, ◌%◌, ◌≤◌, ◌<◌, ◌≡◌, refl, ap, ◌∙◌, Bool, true, ◌&&◌, ◌||◌, ◌⊎◌,
  inl, inr, Option, none, some, List, [], ◌∷◌, ◌++◌, if◌then◌else◌, ◌==◌, nat_eq, list_eq, ltb, leb,
  Bool-cases, ==_eq, if_cases, length, length-append, ltb→lt, not-ltb→le, arith,
}
use xforgebox.Models.{Text}

abbrev pub Bytes : Type 0
Bytes = List ℕ

-- U+FFFD
abbrev pub replacement : ℕ
replacement = 65533

-- Code points but surrogates, which UTF-8 does not have.
abbrev pub is_scalar : ℕ → Bool
is_scalar c = ltb c 55296 || (ltb 57343 c && ltb c 1114112)

unfoldable pub encode_char : ℕ → Bytes
encode_char c =
    if ltb c 128
    then c ∷ []
    else if ltb c 2048
    then (192 + c / 64) ∷ (128 + c % 64) ∷ []
    else if ltb c 65536
    then (224 + c / 4096) ∷ (128 + c / 64 % 64) ∷ (128 + c % 64) ∷ []
    else (240 + c / 262144) ∷ (128 + c / 4096 % 64) ∷ (128 + c / 64 % 64) ∷ (128 + c % 64) ∷ []

-- `text.encode("utf-8")`, where every character has an encoding.
unfoldable pub encode : Text → Bytes
unfolding encode_char
encode [] = []
encode (c ∷ cs) = encode_char c ++ encode cs

unfoldable pub encodable : Text → Bool
encodable [] = true
encodable (c ∷ cs) = is_scalar c && encodable cs

-- Between characters, or within one: how many bytes are to follow the next one, the bits so far
-- and the bounds of the next byte.
pub data State : Type 0 where
  start : State
  inside : ℕ → ℕ → ℕ → ℕ → State

-- The first byte of a character, with what it adds to the text.
unfoldable pub first_byte : ℕ → State × Text
unfolding nat_eq
first_byte b =
    if ltb b 128
    then (start, b ∷ [])
    else if ltb b 194
    then (start, replacement ∷ [])
    else if ltb b 224
    then (inside 0 (b - 192) 128 191, [])
    else if b == 224
    then (inside 1 0 160 191, [])
    else if b == 237
    then (inside 1 13 128 159, [])
    else if ltb b 240
    then (inside 1 (b - 224) 128 191, [])
    else if b == 240
    then (inside 2 0 144 191, [])
    else if ltb b 244
    then (inside 2 (b - 240) 128 191, [])
    else if b == 244
    then (inside 2 4 128 143, [])
    else (start, replacement ∷ [])

unfoldable pub next_byte : State → ℕ → State × Text
unfolding first_byte
next_byte start b = first_byte b
next_byte (inside more bits lo hi) b =
    if leb lo b && leb b hi
    then elim more [
      | zero ↦ (start, (bits * 64 + (b - 128)) ∷ [])
      | suc n ↦ (inside n (bits * 64 + (b - 128)) 128 191, [])
    ]
    else ((first_byte b).0, replacement ∷ (first_byte b).1)

unfoldable pub decode_from : State → Bytes → Text
unfolding next_byte
decode_from start [] = []
decode_from (inside more bits lo hi) [] = replacement ∷ []
decode_from s (b ∷ bs) = let next = next_byte s b in next.1 ++ decode_from next.0 bs

-- `raw.decode("utf-8", errors="replace")`
unfoldable pub decode : Bytes → Text
unfolding decode_from
decode = decode_from start

-- `raw.decode("utf-8")`: it raises where bytes had to be replaced, which are those that the text
-- does not give back.
unfoldable pub decode_strict : Bytes → Option Text
unfolding decode encode list_eq nat_eq
decode_strict bs = if encode (decode bs) == bs then some (decode bs) else none
