-- ===== src/ReceiverName/Utf8.antt =====
-- UTF-8 described by its encoder, and that the validator accepts exactly the encodings of names.
use air_play_windows.Base.{
  ltb, if◌then◌else◌, Bool-cases, length, All, Bytes, IsByte, ℕ, zero, suc, ◌+◌, ◌*◌, ◌/◌, ◌%◌, ◌≤◌,
  ◌<◌, ◌≡◌, refl, ap, ◌∙◌, subst, ◌≢◌, ◌⊎◌, inl, inr, true, List, [], ◌∷◌, ◌++◌, arith,
}
use air_play_windows.ReceiverName.{lead, continue_with, is_scalar, is_valid}

-- A code point that a name may hold: a Unicode scalar value that is no control character, dot or
-- backslash.
abbrev pub IsAllowed : ℕ → Type 0
IsAllowed v =
    (0x20 ≤ v)
    × (v ≢ 0x7f)
    × (v ≢ b'.')
    × (v ≢ b'\\')
    × (v ≤ 0x10_ffff)
    × ((v < 0xd800) ⊎ (0xdfff < v))

-- The bytes of a code point.
unfoldable pub encode : ℕ → Bytes
encode v =
    if ltb v 0x80
    then v ∷ []
    else if ltb v 0x800
    then (0xc0 + v / 64) ∷ (0x80 + v % 64) ∷ []
    else if ltb v 0x1_0000
    then (0xe0 + v / 4096) ∷ (0x80 + v / 64 % 64) ∷ (0x80 + v % 64) ∷ []
    else (0xf0 + v / 262144) ∷ (0x80 + v / 4096 % 64) ∷ (0x80 + v / 64 % 64) ∷ (0x80 + v % 64) ∷ []

unfoldable pub encode_all : List ℕ → Bytes
encode_all [] = []
encode_all (v ∷ vs) = encode v ++ encode_all vs

-- One round reads one encoded code point.
is_valid-encode :
    (v fuel : ℕ) (rest : Bytes)
    → IsAllowed v
    → is_valid (suc fuel) (encode v ++ rest) ≡ is_valid fuel rest
unfolding is_valid encode lead continue_with
is_valid-encode v fuel rest h = elim (Bool-cases (ltb v 0x80)) [
  | inl one ↦ ground arith
  | inr more ↦ elim (Bool-cases (ltb v 0x800)) [
    | inl two ↦ ground arith
    | inr wide ↦ elim (Bool-cases (ltb v 0x1_0000)) [
      | inl three ↦ ground arith
      | inr four ↦ ground arith
    ]
  ]
]

pub is_valid-encode_all :
    (vs : List ℕ) (fuel : ℕ)
    → All IsAllowed vs
    → length vs < fuel
    → is_valid fuel (encode_all vs) ≡ true
unfolding encode_all
is_valid-encode_all vs zero h k = absurd (omega arith)
is_valid-encode_all [] (suc fuel) h k = unfold is_valid in refl
is_valid-encode_all (v ∷ vs) (suc fuel) h k =
    is_valid-encode v fuel (encode_all vs) h.0 ∙ is_valid-encode_all vs fuel h.1 (omega arith)

-- What an accepted round has read.
record Round (fuel : ℕ) (name : Bytes) : Type 0 where
  point : ℕ
  later : Bytes
  allowed : IsAllowed point
  reads : name ≡ encode point ++ later
  goes_on : is_valid fuel later ≡ true

Round-one :
    (fuel c : ℕ) (rest : Bytes)
    → c < 0x80
    → is_valid (suc fuel) (c ∷ rest) ≡ true
    → Round fuel (c ∷ rest)
unfolding is_valid encode
Round-one fuel c rest h e = record {
  point = c;
  later = rest;
  allowed = ground arith;
  reads = ground arith;
  goes_on = ground arith;
}

Round-two :
    (fuel c : ℕ) (rest : Bytes)
    → 0xc2 ≤ c
    → c ≤ 0xdf
    → All IsByte rest
    → is_valid (suc fuel) (c ∷ rest) ≡ true
    → Round fuel (c ∷ rest)
unfolding is_valid encode lead continue_with
Round-two fuel c [] lo hi bs e = absurd (ground arith)
Round-two fuel c (n ∷ rest) lo hi (b, bs) e =
    let tail : n / 64 ≡ 2 = ground arith in
    record {
      point = c % 32 * 64 + n % 64;
      later = rest;
      allowed = ground arith;
      reads = ground arith;
      goes_on = ground arith;
    }

Round-three :
    (fuel c : ℕ) (rest : Bytes)
    → 0xe0 ≤ c
    → c ≤ 0xef
    → All IsByte rest
    → is_valid (suc fuel) (c ∷ rest) ≡ true
    → Round fuel (c ∷ rest)
unfolding is_valid encode lead continue_with
Round-three fuel c [] lo hi bs e = absurd (ground arith)
Round-three fuel c (m ∷ []) lo hi bs e = absurd (ground arith)
Round-three fuel c (m ∷ n ∷ rest) lo hi (a, (b, bs)) e =
    let v : ℕ = (c % 16 * 64 + m % 64) * 64 + n % 64 in
    let tails : (m / 64 ≡ 2)
        × (n / 64 ≡ 2)
        × (is_scalar 0x800 v ≡ true)
        × (is_valid fuel rest ≡ true) =
      (ground arith, ground arith, ground arith, ground arith) in
    record {
      point = v;
      later = rest;
      allowed = ground arith;
      reads = ground arith;
      goes_on = tails.3;
    }

Round-four :
    (fuel c : ℕ) (rest : Bytes)
    → 0xf0 ≤ c
    → c ≤ 0xf4
    → All IsByte rest
    → is_valid (suc fuel) (c ∷ rest) ≡ true
    → Round fuel (c ∷ rest)
unfolding is_valid encode lead continue_with
Round-four fuel c [] lo hi bs e = absurd (ground arith)
Round-four fuel c (m ∷ []) lo hi bs e = absurd (ground arith)
Round-four fuel c (m ∷ n ∷ []) lo hi bs e = absurd (ground arith)
Round-four fuel c (m ∷ n ∷ o ∷ rest) lo hi (a, (b, (d, bs))) e =
    let v : ℕ = ((c % 8 * 64 + m % 64) * 64 + n % 64) * 64 + o % 64 in
    let tails : (m / 64 ≡ 2)
        × (n / 64 ≡ 2)
        × (o / 64 ≡ 2)
        × (is_scalar 0x1_0000 v ≡ true)
        × (is_valid fuel rest ≡ true) =
      (ground arith, ground arith, ground arith, ground arith, ground arith) in
    record {
      point = v;
      later = rest;
      allowed = ground arith;
      reads = ground arith;
      goes_on = tails.4;
    }

-- No other lead byte passes.
lead-none :
    (fuel c : ℕ) (rest : Bytes)
    → is_valid (suc fuel) (c ∷ rest) ≡ true
    → (c < 0x80) ⊎ ((0xc2 ≤ c) × (c ≤ 0xdf)) ⊎ ((0xe0 ≤ c) × (c ≤ 0xef)) ⊎ ((0xf0 ≤ c) × (c ≤ 0xf4))
unfolding is_valid lead
lead-none fuel c rest e = ground arith

round :
    (fuel c : ℕ) (rest : Bytes)
    → All IsByte rest
    → is_valid (suc fuel) (c ∷ rest) ≡ true
    → Round fuel (c ∷ rest)
round fuel c rest h e = elim (lead-none fuel c rest e) [
  | inl one ↦ Round-one fuel c rest one e
  | inr (inl two) ↦ Round-two fuel c rest two.0 two.1 h e
  | inr (inr (inl three)) ↦ Round-three fuel c rest three.0 three.1 h e
  | inr (inr (inr four)) ↦ Round-four fuel c rest four.0 four.1 h e
]

All-suffix : (xs ys : Bytes) → All IsByte (xs ++ ys) → All IsByte ys
All-suffix [] ys h = h
All-suffix (x ∷ xs) ys h = All-suffix xs ys h.1

-- An accepted text of bytes is the encoding of allowed code points.
pub is_valid_sound :
    (fuel : ℕ) (name : Bytes)
    → All IsByte name
    → is_valid fuel name ≡ true
    → (vs : List ℕ) × All IsAllowed vs × (name ≡ encode_all vs)
unfolding encode_all
is_valid_sound zero name h e = unfold is_valid in cc
is_valid_sound (suc fuel) [] h e = ([], tt, refl)
is_valid_sound (suc fuel) (c ∷ rest) h e =
    let r = round fuel c rest h.1 e in
    let (vs, allowed, same) =
      is_valid_sound fuel r.later
        (All-suffix (encode r.point) r.later (subst (All IsByte) r.reads h)) r.goes_on in
    (r.point ∷ vs, (r.allowed, allowed), r.reads ∙ ap (λ z. encode r.point ++ z) same)
