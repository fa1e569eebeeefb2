-- ===== src/Sps/Escape.antt =====
-- Emulation prevention of H.264 (7.3.1), as an encoder applies it, and its removal.
use air_play_windows.Base.{
  leb, ◌==◌, if◌then◌else◌, Bool-cases, Bytes, ℕ, zero, suc, ◌≤◌, ◌<◌, ◌≡◌, refl, ◌≢◌, inl, inr,
  ◌&&◌, [], ◌∷◌, ◌++◌, arith,
}
use air_play_windows.Sps.{ebsp_to_rbsp}

-- The bytes of a payload with a 3 put in front of each byte below 4 that follows two zeros, where
-- `run` is the number of zeros just written.
unfoldable pub escape : ℕ → Bytes → Bytes
escape run [] = []
escape run (b ∷ bs) =
    let plain = b ∷ escape (if b == 0 then suc run else 0) bs in
    let escaped = 3 ∷ b ∷ escape (if b == 0 then 1 else 0) bs in
    if leb 2 run && leb b 3 then escaped else plain

abbrev pending_zeros : ℕ → Bytes
pending_zeros zero = []
pending_zeros (suc n) = 0 ∷ pending_zeros n

ebsp_to_rbsp-front : (b : ℕ) (bs : Bytes) → b ≢ 0 → ebsp_to_rbsp (b ∷ bs) ≡ b ∷ ebsp_to_rbsp bs
unfolding ebsp_to_rbsp
ebsp_to_rbsp-front b [] h = refl
ebsp_to_rbsp-front b (c ∷ []) h = refl
ebsp_to_rbsp-front b (c ∷ d ∷ rest) h = ground arith

ebsp_to_rbsp-zero :
    (b : ℕ) (bs : Bytes) → b ≢ 0 → ebsp_to_rbsp (0 ∷ b ∷ bs) ≡ 0 ∷ b ∷ ebsp_to_rbsp bs
unfolding ebsp_to_rbsp
ebsp_to_rbsp-zero b [] h = refl
ebsp_to_rbsp-zero b (d ∷ rest) h = ground (arith, ebsp_to_rbsp-front b (d ∷ rest) h)

ebsp_to_rbsp-zeros :
    (b : ℕ) (bs : Bytes) → 3 < b → ebsp_to_rbsp (0 ∷ 0 ∷ b ∷ bs) ≡ 0 ∷ 0 ∷ b ∷ ebsp_to_rbsp bs
unfolding ebsp_to_rbsp
ebsp_to_rbsp-zeros b bs h = ground (arith, ebsp_to_rbsp-zero b bs)

ebsp_to_rbsp-escaped : (bs : Bytes) → ebsp_to_rbsp (0 ∷ 0 ∷ 3 ∷ bs) ≡ 0 ∷ 0 ∷ ebsp_to_rbsp bs
unfolding ebsp_to_rbsp
ebsp_to_rbsp-escaped bs = refl

unescape :
    (run : ℕ) (bs : Bytes)
    → run ≤ 2
    → ebsp_to_rbsp (pending_zeros run ++ escape run bs) ≡ pending_zeros run ++ bs
unfolding escape
unescape zero [] h = unfold ebsp_to_rbsp in refl
unescape zero (b ∷ bs) h = elim (Bool-cases (b == 0)) [
  | inl nil ↦ ground (arith, unescape 1 bs (omega arith))
  | inr other ↦ ground (arith, unescape 0 bs (omega arith), ebsp_to_rbsp-front b (escape 0 bs))
]
unescape (suc zero) [] h = unfold ebsp_to_rbsp in refl
unescape (suc zero) (b ∷ bs) h = elim (Bool-cases (b == 0)) [
  | inl nil ↦ ground (arith, unescape 2 bs (omega arith))
  | inr other ↦ ground (arith, unescape 0 bs (omega arith), ebsp_to_rbsp-zero b (escape 0 bs))
]
unescape (suc (suc zero)) [] h = unfold ebsp_to_rbsp in refl
unescape (suc (suc zero)) (b ∷ bs) h = elim (Bool-cases (leb b 3)) [
  | inr high ↦ ground (arith, unescape 0 bs (omega arith), ebsp_to_rbsp-zeros b (escape 0 bs))
  | inl low ↦ elim (Bool-cases (b == 0)) [
    | inl nil ↦ ground (arith, unescape 1 bs (omega arith), ebsp_to_rbsp-escaped (0 ∷ escape 1 bs))
    | inr other ↦ ground (
      arith,
      unescape 0 bs (omega arith),
      ebsp_to_rbsp-escaped (b ∷ escape 0 bs),
      ebsp_to_rbsp-front b (escape 0 bs),
    )
  ]
]
unescape (suc (suc (suc run))) bs h = absurd (omega arith)

-- Taking emulation prevention back gives every payload as it was before an encoder escaped it.
pub ebsp_to_rbsp-escape : (bs : Bytes) → ebsp_to_rbsp (escape 0 bs) ≡ bs
ebsp_to_rbsp-escape bs = unescape 0 bs (omega arith)
