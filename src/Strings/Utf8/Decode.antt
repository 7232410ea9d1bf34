-- ===== src/Strings/Utf8/Decode.antt =====
-- Decoding undoes encoding, and makes no more characters than there are bytes: what the files
-- service and the docker driver rely on.
use xforgebox.Base.{
  ℕ, zero, suc, ◌+◌, ◌*◌, ◌/◌, ◌%◌, ◌≤◌, ◌<◌, ◌≡◌, refl, ap, ◌∙◌, true, ◌⊎◌, inl, inr, [], ◌∷◌,
  ◌++◌, ◌==◌, nat_eq, list_eq, ltb, Bool-cases, ==_eq, if_cases, length, length-append, ltb→lt,
  not-ltb→le, arith,
}
use xforgebox.Models.{Text}
use xforgebox.Strings.Utf8.{
  Bytes, is_scalar, encode_char, encode, encodable, State, start, inside, first_byte, next_byte,
  decode_from, decode,
}

decode-1 :
    (c : ℕ) (rest : Bytes) → c < 128 → decode_from start (c ∷ rest) ≡ c ∷ decode_from start rest
unfolding decode_from
decode-1 c rest h = ground arith

decode-2 :
    (c : ℕ) (rest : Bytes)
    → 128 ≤ c
    → c < 2048
    → decode_from start ((192 + c / 64) ∷ (128 + c % 64) ∷ rest) ≡ c ∷ decode_from start rest
unfolding decode_from
decode-2 c rest h k = ground arith

-- A byte that goes on within a character.
next-more :
    (n bits x lo hi : ℕ)
    → x < 64
    → lo ≤ 128 + x
    → 128 + x ≤ hi
    → next_byte (inside (suc n) bits lo hi) (128 + x) ≡ (inside n (bits * 64 + x) 128 191, [])
unfolding next_byte
next-more n bits x lo hi h k l = ground arith

next-last :
    (bits x lo hi : ℕ)
    → x < 64
    → lo ≤ 128 + x
    → 128 + x ≤ hi
    → next_byte (inside 0 bits lo hi) (128 + x) ≡ (start, (bits * 64 + x) ∷ [])
unfolding next_byte
next-last bits x lo hi h k l = ground arith

-- The first byte of three opens a character that its second byte can go on with.
first-3 :
    (x y : ℕ)
    → x < 16
    → y < 64
    → (x ≡ 0 → 32 ≤ y)
    → (x ≡ 13 → y < 32)
    → (lo : ℕ) × (hi : ℕ) × (first_byte (224 + x) ≡ (inside 1 x lo hi, []))
      × (lo ≤ 128 + y)
      × (128 + y ≤ hi)
unfolding first_byte
first-3 x y h k low high = elim (Bool-cases (x == 0)) [
  | inl zero_x ↦
      let z : x ≡ 0 = ==_eq x 0 zero_x in
      (160, 191, ground arith, ground (arith, low z), ground arith)
  | inr pos_x ↦ elim (Bool-cases (x == 13)) [
    | inl surrogates ↦
        let z : x ≡ 13 = ==_eq x 13 surrogates in
        (128, 159, ground arith, ground arith, ground (arith, high z))
    | inr others ↦ (128, 191, ground arith, ground arith, ground arith)
  ]
]

first-4 :
    (x y : ℕ)
    → x < 5
    → y < 64
    → (x ≡ 0 → 16 ≤ y)
    → (x ≡ 4 → y < 16)
    → (lo : ℕ) × (hi : ℕ) × (first_byte (240 + x) ≡ (inside 2 x lo hi, []))
      × (lo ≤ 128 + y)
      × (128 + y ≤ hi)
unfolding first_byte
first-4 x y h k low high = elim (Bool-cases (x == 0)) [
  | inl zero_x ↦
      let z : x ≡ 0 = ==_eq x 0 zero_x in
      (144, 191, ground arith, ground (arith, low z), ground arith)
  | inr pos_x ↦ elim (Bool-cases (x == 4)) [
    | inl last ↦
        let z : x ≡ 4 = ==_eq x 4 last in
        (128, 143, ground arith, ground arith, ground (arith, high z))
    | inr others ↦ (128, 191, ground arith, ground arith, ground arith)
  ]
]

scalar-cases : (c : ℕ) → is_scalar c ≡ true → (c < 55296) ⊎ ((57343 < c) × (c < 1114112))
scalar-cases c h = ground arith

decode-3 :
    (c : ℕ) (rest : Bytes)
    → 2048 ≤ c
    → c < 65536
    → is_scalar c ≡ true
    → decode_from start ((224 + c / 4096) ∷ (128 + c / 64 % 64) ∷ (128 + c % 64) ∷ rest)
      ≡ c ∷ decode_from start rest
unfolding decode_from
decode-3 c rest h k scalar =
    let x : ℕ = c / 4096 in
    let y : ℕ = c / 64 % 64 in
    let (lo, hi, first, l, u) =
      first-3 x y (omega arith) (omega arith) (λ e. omega (arith, e))
        (λ e. elim (scalar-cases c scalar) [
          | inl below ↦ omega arith
          | inr (above, _) ↦ omega arith
        ]) in
    let sum : (x * 64 + y) * 64 + c % 64 ≡ c = omega arith in
    rw
      (
        first,
        next-more 0 x y lo hi (omega arith) l u,
        next-last (x * 64 + y) (c % 64) 128 191 (omega arith) (omega arith) (omega arith),
        sum,
      )
      refl

decode-4 :
    (c : ℕ) (rest : Bytes)
    → 65536 ≤ c
    → c < 1114112
    → decode_from start
        ((240 + c / 262144) ∷ (128 + c / 4096 % 64) ∷ (128 + c / 64 % 64) ∷ (128 + c % 64) ∷ rest)
      ≡ c ∷ decode_from start rest
unfolding decode_from
decode-4 c rest h k =
    let x : ℕ = c / 262144 in
    let y : ℕ = c / 4096 % 64 in
    let z : ℕ = c / 64 % 64 in
    let (lo, hi, first, l, u) =
      first-4 x y (omega arith) (omega arith) (λ e. omega (arith, e)) (λ e. omega (arith, e)) in
    let sum : ((x * 64 + y) * 64 + z) * 64 + c % 64 ≡ c = omega arith in
    rw
      (
        first,
        next-more 1 x y lo hi (omega arith) l u,
        next-more 0 (x * 64 + y) z 128 191 (omega arith) (omega arith) (omega arith),
        next-last ((x * 64 + y) * 64 + z) (c % 64) 128 191 (omega arith) (omega arith)
            (omega arith),
        sum,
      )
      refl

decode-encode_char :
    (c : ℕ) (rest : Bytes)
    → is_scalar c ≡ true
    → decode_from start (encode_char c ++ rest) ≡ c ∷ decode_from start rest
unfolding encode_char
decode-encode_char c rest scalar =
    let goal : Bytes → Type 0 = λ bs. decode_from start (bs ++ rest) ≡ c ∷ decode_from start rest in
    let above : c < 1114112 = elim (scalar-cases c scalar) [
      | inl below ↦ omega arith
      | inr (_, k) ↦ k
    ] in
    if_cases goal (ltb c 128) (λ a. decode-1 c rest (ltb→lt c 128 a))
      λ a.
        if_cases goal (ltb c 2048) (λ b. decode-2 c rest (not-ltb→le c 128 a) (ltb→lt c 2048 b))
          λ b.
            if_cases goal (ltb c 65536)
              (λ d. decode-3 c rest (not-ltb→le c 2048 b) (ltb→lt c 65536 d) scalar)
              (λ d. decode-4 c rest (not-ltb→le c 65536 d) above)

-- Decoding gives back a text that has an encoding.
pub decode-encode : (text : Text) → encodable text ≡ true → decode (encode text) ≡ text
unfolding decode encode encodable
decode-encode [] h = refl
decode-encode (c ∷ cs) h = elim (Bool-cases (is_scalar c)) [
  | inl scalar ↦
      decode-encode_char c (encode cs) scalar ∙ ap (◌∷◌ c) (decode-encode cs (ground (arith, h)))
  | inr other ↦ ground (arith, h)
]

-- How many characters may still come out of the bytes taken.
abbrev pending : State → ℕ
pending start = 0
pending (inside more bits lo hi) = 1

first_byte-length : (b : ℕ) → pending (first_byte b).0 + length (first_byte b).1 ≡ 1
unfolding first_byte
first_byte-length b = ground arith

next_byte-length :
    (s : State) (b : ℕ) → pending (next_byte s b).0 + length (next_byte s b).1 ≤ pending s + 1
unfolding next_byte
next_byte-length start b = omega (arith, first_byte-length b)
next_byte-length (inside zero bits lo hi) b = ground (arith, first_byte-length b)
next_byte-length (inside (suc n) bits lo hi) b = ground (arith, first_byte-length b)

decode_from-length : (s : State) (bs : Bytes) → length (decode_from s bs) ≤ pending s + length bs
unfolding decode_from
decode_from-length start [] = omega arith
decode_from-length (inside more bits lo hi) [] = omega arith
decode_from-length s (b ∷ bs) =
    let n = next_byte s b in
    let split = length-append n.1 (decode_from n.0 bs) in
    let rest = decode_from-length n.0 bs in omega (arith, split, rest, next_byte-length s b)

-- No more characters than bytes.
pub length-decode : (bs : Bytes) → length (decode bs) ≤ length bs
unfolding decode
length-decode bs = omega (arith, decode_from-length start bs)
