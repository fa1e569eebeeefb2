-- ===== src/Hls/Rendition.antt =====
-- The audio rendition that `filter_master_to_single_variant` keeps.
use air_play_windows.Base.{
  ltb, Bool-cases, get_elem?, All, Bytes, ℕ, suc, ◌+◌, ◌≤◌, ◌<◌, ◌≡◌, refl, subst, ◌⊎◌, inl, inr,
  true, false, ◌&&◌, Option, none, some, List, [], ◌∷◌, arith,
}
use air_play_windows.Hls.Master.{is_candidate, score, choose_audio}

-- Not a candidate, or with a score below `bound`.
abbrev pub IsBeaten : Bytes → ℕ → Bytes → Type 0
IsBeaten group bound l = (is_candidate group l ≡ false) ⊎ (score l < bound)

IsBeaten-mono :
    (group : Bytes) (b b' : ℕ) (l : Bytes) → b ≤ b' → IsBeaten group b l → IsBeaten group b' l
IsBeaten-mono group b b' l le (inl other) = inl other
IsBeaten-mono group b b' l le (inr lower) = inr (omega arith)

-- The loop keeps the choice it has, since every candidate left is beaten, or ends with a candidate
-- that beats it.
abbrev Choice : Bytes → List Bytes → ℕ → ℕ → Option ℕ → Option ℕ → Type 0
Choice group ls i best chosen r =
    (All (IsBeaten group best) ls × (r ≡ chosen))
    ⊎ ((k : ℕ) × (l : Bytes) × (r ≡ some (i + k))
        × (get_elem? ls k ≡ some l)
        × (is_candidate group l ≡ true)
        × (best ≤ score l)
        × All (IsBeaten group (suc (score l))) ls)

add_one : (n : ℕ) → n + 1 ≡ suc n
add_one n = omega arith

IsBeaten-worse :
    (group l : Bytes) (best : ℕ)
    → is_candidate group l && ltb best (score l + 1) ≡ false
    → IsBeaten group best l
IsBeaten-worse group l best worse = elim (Bool-cases (is_candidate group l)) [
  | inr other ↦ inl other
  | inl known ↦ inr (ground (arith, worse, known))
]

none_left :
    (group : Bytes) (ls : List Bytes)
    → All (IsBeaten group 0) ls
    → All (λ l. is_candidate group l ≡ false) ls
none_left group [] h = tt
none_left group (l ∷ ls) (inl other, h) = (other, none_left group ls h)
none_left group (l ∷ ls) (inr lower, h) = absurd (omega arith)

choose_audio-Choice :
    (group : Bytes) (ls : List Bytes) (i best : ℕ) (chosen : Option ℕ)
    → Choice group ls i best chosen (choose_audio group ls i best chosen)
unfolding choose_audio
choose_audio-Choice group [] i best chosen = inl (tt, refl)
choose_audio-Choice group (l ∷ ls) i best chosen =
    elim (Bool-cases (is_candidate group l && ltb best (score l + 1))) [
      | inl better ↦ rw better (elim (choose_audio-Choice group ls (suc i) (score l + 1) (some i)) [
        | inl (beaten, same) ↦ inr (
          0,
          l,
          ground (arith, same),
          refl,
          ground (arith, better),
          ground (arith, better),
          (inr (omega arith), subst (λ b. All (IsBeaten group b) ls) (add_one (score l)) beaten),
        )
        | inr (k, l', found, there, known, above, beaten) ↦ inr (
          suc k,
          l',
          ground (arith, found),
          there,
          known,
          ground (arith, better, above),
          (inr (omega (arith, above)), beaten),
        )
      ])
      | inr worse ↦
          let first = IsBeaten-worse group l best worse in
          rw worse (elim (choose_audio-Choice group ls (suc i) best chosen) [
            | inl (beaten, same) ↦ inl ((first, beaten), same)
            | inr (k, l', found, there, known, above, beaten) ↦ inr (
              suc k,
              l',
              ground (arith, found),
              there,
              known,
              above,
              (IsBeaten-mono group best (suc (score l')) l (omega (arith, above)) first, beaten),
            )
          ])
    ]

-- If a rendition is chosen, it is a line of the master playlist that is an audio rendition of the
-- first variant's group, and no such line has a higher score; if none is chosen, there is no such
-- line.
pub choose_audio_best :
    (group : Bytes) (ls : List Bytes)
    → ((choose_audio group ls 0 0 none ≡ none) × All (λ l. is_candidate group l ≡ false) ls)
      ⊎ ((k : ℕ) × (l : Bytes) × (choose_audio group ls 0 0 none ≡ some k)
          × (get_elem? ls k ≡ some l)
          × (is_candidate group l ≡ true)
          × All (IsBeaten group (suc (score l))) ls)
choose_audio_best group ls = elim (choose_audio-Choice group ls 0 0 none) [
  | inl (beaten, same) ↦ inl (same, none_left group ls beaten)
  | inr (k, l, found, there, known, above, beaten) ↦
      inr (k, l, ground (arith, found), there, known, beaten)
]
