-- ===== src/Nal/Bounds.antt =====
-- What the conversion does on any payload, malformed ones included.
use native.Mathlib.Nat.{zero-add}
use air_play_windows.Base.{
  ltb, leb, ◌==◌, Bool-cases, length, take, drop, length-append, length-take, length-drop, Bytes,
  be32, ℕ, zero, suc, ◌+◌, ◌≤◌, ◌<◌, ◌≡◌, refl, subst, inl, inr, false, ◌||◌, List, [], ◌∷◌, arith,
}
use air_play_windows.Nal.{NalCodec, NalUnit, nal_loop, parse_nals_avcc_to_annexb}

-- The units lie one behind the other from `offset_at` on, each behind its four-byte prefix, with at
-- least one byte, and all of them end at `end` or before it.
abbrev pub Within : ℕ → ℕ → List NalUnit → Type 0
Within offset_at end [] = Unit
Within offset_at end (u ∷ us) =
    (u.offset ≡ offset_at + 4)
    × (0 < u.size)
    × (u.offset + u.size ≤ end)
    × Within (u.offset + u.size) end us

-- What the test of the length leaves.
lens : (n size : ℕ) → n == 0 || ltb size n ≡ false → (0 < n) × (n ≤ size)
lens n size h = ground arith

nal_loop_bounds :
    (fuel : ℕ) (codec : NalCodec) (offset_at : ℕ) (p : Bytes)
    → (length (nal_loop fuel codec offset_at p).payload ≡ length p)
      × Within offset_at (offset_at + length p) (nal_loop fuel codec offset_at p).units
unfolding nal_loop
nal_loop_bounds zero codec offset_at p = (refl, tt)
nal_loop_bounds (suc fuel) codec offset_at [] = (refl, tt)
nal_loop_bounds (suc fuel) codec offset_at (b0 ∷ []) = (refl, tt)
nal_loop_bounds (suc fuel) codec offset_at (b0 ∷ b1 ∷ []) = (refl, tt)
nal_loop_bounds (suc fuel) codec offset_at (b0 ∷ b1 ∷ b2 ∷ []) = (refl, tt)
nal_loop_bounds (suc fuel) codec offset_at (b0 ∷ b1 ∷ b2 ∷ b3 ∷ []) = (refl, tt)
nal_loop_bounds (suc fuel) codec offset_at (b0 ∷ b1 ∷ b2 ∷ b3 ∷ nh ∷ body) =
    let n = be32 b0 b1 b2 b3 in
    let (size, within) = nal_loop_bounds fuel codec (offset_at + 4 + n) (drop n (nh ∷ body)) in
    elim (Bool-cases (n == 0 || ltb (length (nh ∷ body)) n)) [
      | inl bad ↦ rw bad (refl, tt)
      | inr fits ↦ elim (Bool-cases (leb 128 nh)) [
        | inl top ↦ rw (fits, top) (refl, tt)
        | inr clear ↦
            rw (fits, clear)
              (
                omega (
                  arith,
                  size,
                  length-take n (nh ∷ body),
                  length-drop n (nh ∷ body),
                  length-append (take n (nh ∷ body))
                      (nal_loop fuel codec (offset_at + 4 + n) (drop n (nh ∷ body))).payload,
                  lens n (length (nh ∷ body)) fits,
                ),
                (
                  refl,
                  (lens n _ fits).0,
                  omega (arith, lens n (length (nh ∷ body)) fits),
                  subst
                      (λ e.
                        Within (offset_at + 4 + n) e
                          (nal_loop fuel codec (offset_at + 4 + n) (drop n (nh ∷ body))).units)
                      (omega (arith, length-drop n (nh ∷ body), lens n (length (nh ∷ body)) fits))
                      within,
                ),
              )
      ]
    ]

-- On any payload and for either codec the conversion keeps the payload's length, and the units it
-- reports, also before a failure, lie inside it, in order and without overlap, each behind its
-- four-byte prefix.
pub parse_nals_bounds :
    (codec : NalCodec) (p : Bytes)
    → (length (parse_nals_avcc_to_annexb codec p).payload ≡ length p)
      × Within 0 (length p) (parse_nals_avcc_to_annexb codec p).units
unfolding parse_nals_avcc_to_annexb
parse_nals_bounds codec p = rw zero-add at (nal_loop_bounds (suc (length p)) codec 0 p)
