-- ===== src/Audio/Trim.antt =====
-- src/audio/rtp_flush.h: `trim_before`, and what it keeps.
use air_play_windows.Base.{
  ltb, ◌==◌, if◌then◌else◌, Bool-cases, length, drop, length-drop, u32, sub32, add32, ℕ, ◌+◌, ◌-◌,
  ◌*◌, ◌/◌, ◌%◌, ◌≤◌, ◌<◌, min, ◌≡◌, refl, sym, ap, ◌⊎◌, inl, inr, ◌||◌, List, arith,
}

pub record Trimmed : Type 0 where
  pub rtp : ℕ
  pub pcm : List ℕ
  pub removed : ℕ

-- Stereo: a frame is two samples.
unfoldable pub trim_before : ℕ → List ℕ → ℕ → Trimmed
trim_before rtp pcm boundary =
    let difference = sub32 boundary rtp in
    let frames = min difference (length pcm / 2) in
    if difference == 0 || ltb 0x7fff_ffff difference
    then record { rtp = rtp; pcm = pcm; removed = 0 }
    else record { rtp = add32 rtp frames; pcm = drop (frames * 2) pcm; removed = frames * 2 }

-- `t` lies strictly before `b` on the circle of RTP times: at most 2 ^ 31 - 1 ticks.
abbrev pub IsBefore : ℕ → ℕ → Type 0
IsBefore t b = (0 < sub32 b t) × (sub32 b t ≤ 0x7fff_ffff)

pub record TrimmedExactly (rtp : ℕ) (pcm : List ℕ) (boundary : ℕ) (r : Trimmed) : Type 0 where
  pub suffix : r.pcm ≡ drop r.removed pcm
  pub counted : length r.pcm + r.removed ≡ length pcm
  pub stamped : r.rtp ≡ add32 rtp (r.removed / 2)
  pub whole_frames : r.removed % 2 ≡ 0
  pub dropped_before : (i : ℕ) → i < r.removed / 2 → IsBefore (add32 rtp i) boundary
  pub kept_not_before : (length r.pcm < 2) ⊎ (¬ IsBefore r.rtp boundary)

half_le : (d n : ℕ) → min d (n / 2) * 2 ≤ n
half_le d n = omega arith

trim_kept :
    (rtp n boundary frames left : ℕ)
    → rtp < u32
    → boundary < u32
    → sub32 boundary rtp ≤ 0x7fff_ffff
    → frames ≡ min (sub32 boundary rtp) (n / 2)
    → left ≡ n - frames * 2
    → (left < 2) ⊎ (¬ IsBefore (add32 rtp frames) boundary)
trim_kept rtp n boundary frames left h k near e size = elim (Bool-cases (ltb left 2)) [
  | inl few ↦ inl (ground arith)
  | inr many ↦ inr (λ before. ground arith)
]

trim_dropped :
    (rtp n boundary i : ℕ)
    → rtp < u32
    → boundary < u32
    → sub32 boundary rtp ≤ 0x7fff_ffff
    → i < min (sub32 boundary rtp) (n / 2)
    → IsBefore (add32 rtp i) boundary
trim_dropped rtp n boundary i h k near lt = omega arith

-- The samples removed are whole frames from the front, the RTP time moves on by as many ticks,
-- every removed frame lies strictly before the boundary, and the first frame that is left does not.
pub trim_before_exact :
    (rtp : ℕ) (pcm : List ℕ) (boundary : ℕ)
    → rtp < u32
    → boundary < u32
    → TrimmedExactly rtp pcm boundary (trim_before rtp pcm boundary)
unfolding trim_before
trim_before_exact rtp pcm boundary h k =
    elim (Bool-cases (sub32 boundary rtp == 0 || ltb 0x7fff_ffff (sub32 boundary rtp))) [
      | inl far ↦ rw far (record {
        suffix = refl;
        counted = omega arith;
        stamped = omega arith;
        whole_frames = refl;
        dropped_before = λ i lt. absurd (omega arith);
        kept_not_before = inr (λ before. ground arith);
      })
      | inr near ↦
          let n = length pcm in
          let frames = min (sub32 boundary rtp) (n / 2) in
          let close : sub32 boundary rtp ≤ 0x7fff_ffff = ground arith in
          let halves : frames * 2 / 2 ≡ frames = omega arith in
          rw near (record {
            suffix = refl;
            counted = omega (arith, length-drop (frames * 2) pcm, half_le (sub32 boundary rtp) n);
            stamped = ap (add32 rtp) (sym halves);
            whole_frames = omega arith;
            dropped_before = λ i lt. trim_dropped rtp n boundary i h k close (omega arith);
            kept_not_before =
                trim_kept rtp n boundary frames (length (drop (frames * 2) pcm)) h k close refl
                  (length-drop (frames * 2) pcm);
          })
    ]

-- What the callers use: nothing is added.
pub trim_before-counted :
    (rtp : ℕ) (pcm : List ℕ) (boundary : ℕ)
    → length (trim_before rtp pcm boundary).pcm + (trim_before rtp pcm boundary).removed
      ≡ length pcm
unfolding trim_before
trim_before-counted rtp pcm boundary =
    elim (Bool-cases (sub32 boundary rtp == 0 || ltb 0x7fff_ffff (sub32 boundary rtp))) [
      | inl far ↦ rw far (omega arith)
      | inr near ↦
          let frames = min (sub32 boundary rtp) (length pcm / 2) in
          rw near
            (omega (arith, length-drop (frames * 2) pcm, half_le (sub32 boundary rtp) (length pcm)))
    ]

pub trim_before-rtp_lt :
    (rtp : ℕ) (pcm : List ℕ) (boundary : ℕ) → rtp < u32 → (trim_before rtp pcm boundary).rtp < u32
unfolding trim_before
trim_before-rtp_lt rtp pcm boundary h = ground arith
