-- ===== src/Nal/Avcc.antt =====
-- The format that the conversion reads, described without it, and that it converts exactly this.
use air_play_windows.Base.{
  length, take, drop, All, length-append, take-append-drop, length-take, take-append, drop-append,
  All-drop, Bytes, IsByte, be32, be32_bytes, be32-be32_bytes, ℕ, zero, suc, ◌+◌, ◌^◌, ◌≤◌, ◌<◌, ◌≡◌,
  refl, sym, ap, ◌∙◌, ◌↔◌, true, List, [], ◌∷◌, ◌++◌, arith,
}
use air_play_windows.Nal.{
  NalCodec, NalUnit, nal_unit, start_code, Parsed, prepend, nal_loop, parse_nals_avcc_to_annexb,
}

-- A NAL unit as a decoder takes it: at least one byte, whose top bit is clear, and a 32-bit size.
abbrev pub IsNal : Bytes → Type 0
IsNal [] = ⊥
IsNal (nh ∷ body) = (nh < 128) × (length body + 1 < 2 ^ 32)

-- Length-prefixed units, Annex B units, and the description of each unit from `offset_at` on.
abbrev pub avcc : List Bytes → Bytes
avcc [] = []
avcc (n ∷ ns) = be32_bytes (length n) ++ (n ++ avcc ns)

abbrev pub annexb : List Bytes → Bytes
annexb [] = []
annexb (n ∷ ns) = start_code ++ (n ++ annexb ns)

abbrev unit_of : NalCodec → ℕ → Bytes → NalUnit
unit_of codec offset_at [] = nal_unit codec 0 (offset_at + 4) 0
unit_of codec offset_at (nh ∷ body) = nal_unit codec nh (offset_at + 4) (suc (length body))

abbrev pub units_of : NalCodec → ℕ → List Bytes → List NalUnit
units_of codec offset_at [] = []
units_of codec offset_at (n ∷ ns) =
    unit_of codec offset_at n ∷ units_of codec (offset_at + 4 + length n) ns

abbrev converted : NalCodec → ℕ → List Bytes → Parsed
converted codec offset_at ns = record {
  ok = true;
  units = units_of codec offset_at ns;
  payload = annexb ns;
}

nal_loop-cons :
    (fuel : ℕ) (codec : NalCodec) (offset_at nh : ℕ) (body rest : Bytes)
    → nh < 128
    → length body + 1 < 2 ^ 32
    → nal_loop (suc fuel) codec offset_at (be32_bytes (suc (length body)) ++ (nh ∷ (body ++ rest)))
      ≡ prepend
          (nal_unit codec nh (offset_at + 4) (suc (length body)))
          (nh ∷ body)
          (nal_loop fuel codec (offset_at + 4 + suc (length body)) rest)
unfolding nal_loop
nal_loop-cons fuel codec offset_at nh body rest h k = ground (
  arith,
  be32-be32_bytes (suc (length body)),
  take-append (nh ∷ body) rest,
  drop-append (nh ∷ body) rest,
  length-append body rest,
)

nal_loop-avcc :
    (ns : List Bytes) (fuel : ℕ) (codec : NalCodec) (offset_at : ℕ)
    → All IsNal ns
    → length ns < fuel
    → nal_loop fuel codec offset_at (avcc ns) ≡ converted codec offset_at ns
nal_loop-avcc ns zero codec offset_at h k = absurd (omega arith)
nal_loop-avcc [] (suc fuel) codec offset_at h k = unfold nal_loop in refl
nal_loop-avcc ([] ∷ ns) (suc fuel) codec offset_at h k = absurd h.0
nal_loop-avcc ((nh ∷ body) ∷ ns) (suc fuel) codec offset_at ((top, fits), t) k =
    nal_loop-cons fuel codec offset_at nh body (avcc ns) top fits
    ∙ ap (prepend (nal_unit codec nh (offset_at + 4) (suc (length body))) (nh ∷ body))
        (nal_loop-avcc ns fuel codec (offset_at + 4 + suc (length body)) t (omega arith))

length-avcc : (ns : List Bytes) → length ns ≤ length (avcc ns)
length-avcc [] = omega arith
length-avcc (n ∷ ns) = omega (arith, length-avcc ns, length-append n (avcc ns))

-- On every payload that is a row of length-prefixed units, each of at least one byte with a clear
-- top bit and of fewer than 2 ^ 32 bytes, the conversion succeeds, the payload becomes the same
-- units behind start codes, and each unit is reported with its header fields, place and size.
pub parse_nals-avcc :
    (codec : NalCodec) (ns : List Bytes)
    → All IsNal ns
    → parse_nals_avcc_to_annexb codec (avcc ns) ≡ converted codec 0 ns
unfolding parse_nals_avcc_to_annexb
parse_nals-avcc codec ns h =
    nal_loop-avcc ns (suc (length (avcc ns))) codec 0 h (omega (arith, length-avcc ns))

-- The payload is a row of valid units.
abbrev pub IsAvcc : Bytes → Type 0
IsAvcc p = (ns : List Bytes) × All IsNal ns × (p ≡ avcc ns)

be32_bytes-be32 :
    (b0 b1 b2 b3 : ℕ)
    → b0 < 256
    → b1 < 256
    → b2 < 256
    → b3 < 256
    → be32_bytes (be32 b0 b1 b2 b3) ≡ b0 ∷ b1 ∷ b2 ∷ b3 ∷ []
be32_bytes-be32 b0 b1 b2 b3 h0 h1 h2 h3 = ground arith

-- One more unit in front of a row of units.
IsAvcc-cons :
    (b0 b1 b2 b3 l nh : ℕ) (body : Bytes)
    → All IsByte (b0 ∷ b1 ∷ b2 ∷ b3 ∷ [])
    → be32 b0 b1 b2 b3 ≡ suc l
    → l ≤ length body
    → nh < 128
    → IsAvcc (drop l body)
    → IsAvcc (b0 ∷ b1 ∷ b2 ∷ b3 ∷ nh ∷ body)
IsAvcc-cons b0 b1 b2 b3 l nh body (h0, (h1, (h2, (h3, _)))) e k top (ns, valid, q) =
    let size : length (take l body) ≡ l = omega (arith, length-take l body) in
    let prefix : be32_bytes (suc (length (take l body))) ≡ b0 ∷ b1 ∷ b2 ∷ b3 ∷ [] =
      rw (size, ← e) (be32_bytes-be32 b0 b1 b2 b3 h0 h1 h2 h3) in
    let tail : take l body ++ avcc ns ≡ body = rw (← q) (take-append-drop l body) in
    ((nh ∷ take l body) ∷ ns, ((top, omega arith), valid), λ i. sym prefix i ++ (nh ∷ sym tail i))

-- What a round that does not fail has checked.
nal_loop_round :
    (fuel : ℕ) (codec : NalCodec) (offset_at b0 b1 b2 b3 nh : ℕ) (body : Bytes)
    → (nal_loop (suc fuel) codec offset_at (b0 ∷ b1 ∷ b2 ∷ b3 ∷ nh ∷ body)).ok ≡ true
    → (l : ℕ) × (be32 b0 b1 b2 b3 ≡ suc l)
      × (l ≤ length body)
      × (nh < 128)
      × ((nal_loop fuel codec (offset_at + 4 + suc l) (drop l body)).ok ≡ true)
unfolding nal_loop
nal_loop_round fuel codec offset_at b0 b1 b2 b3 nh body e = go (be32 b0 b1 b2 b3) refl
  where
    go :
        (n : ℕ)
        → be32 b0 b1 b2 b3 ≡ n
        → (l : ℕ) × (be32 b0 b1 b2 b3 ≡ suc l)
          × (l ≤ length body)
          × (nh < 128)
          × ((nal_loop fuel codec (offset_at + 4 + suc l) (drop l body)).ok ≡ true)
    go zero q = absurd (ground arith)
    go (suc l) q = (l, q, ground arith, ground arith, ground arith)

nal_loop-IsAvcc :
    (fuel : ℕ) (codec : NalCodec) (offset_at : ℕ) (p : Bytes)
    → All IsByte p
    → (nal_loop fuel codec offset_at p).ok ≡ true
    → IsAvcc p
unfolding nal_loop
nal_loop-IsAvcc zero codec offset_at p h e = cc
nal_loop-IsAvcc (suc fuel) codec offset_at [] h e = ([], tt, refl)
nal_loop-IsAvcc (suc fuel) codec offset_at (b0 ∷ []) h e = cc
nal_loop-IsAvcc (suc fuel) codec offset_at (b0 ∷ b1 ∷ []) h e = cc
nal_loop-IsAvcc (suc fuel) codec offset_at (b0 ∷ b1 ∷ b2 ∷ []) h e = cc
nal_loop-IsAvcc (suc fuel) codec offset_at (b0 ∷ b1 ∷ b2 ∷ b3 ∷ []) h e = cc
nal_loop-IsAvcc (suc fuel) codec offset_at (b0 ∷ b1 ∷ b2 ∷ b3 ∷ nh ∷ body) h e =
    let (l, e', room, top, later) = nal_loop_round fuel codec offset_at b0 b1 b2 b3 nh body e in
    IsAvcc-cons b0 b1 b2 b3 l nh body (h.0, (h.1.0, (h.1.1.0, (h.1.1.1.0, tt)))) e' room top
      (nal_loop-IsAvcc fuel codec (offset_at + 4 + suc l) (drop l body)
        (All-drop IsByte l body h.1.1.1.1.1) later)

-- On a buffer of bytes the conversion succeeds exactly where the buffer is a row of valid
-- length-prefixed units.
pub parse_nals-IsAvcc :
    (codec : NalCodec) (p : Bytes)
    → All IsByte p
    → ((parse_nals_avcc_to_annexb codec p).ok ≡ true) ↔ IsAvcc p
parse_nals-IsAvcc codec p h = (
  (λ e. unfold parse_nals_avcc_to_annexb in nal_loop-IsAvcc (suc (length p)) codec 0 p h e),
  (λ (ns, valid, is).
      ap (λ q. (parse_nals_avcc_to_annexb codec q).ok) is
      ∙ ap (λ (x : Parsed). x.ok) (parse_nals-avcc codec ns valid)),
)
