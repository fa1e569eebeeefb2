-- ===== src/Sps.antt =====
-- src/airplay/h264_sps.cpp and h264_sps.h: the frame size and profile of an H.264 sequence parameter
-- set. A count of 32 leading zeros makes `ue` evaluate `1u << 32`, which C++ leaves undefined; what
-- the machine gives for it is the field `overshift` of the bit reader.
pub mod Escape
pub mod Frame
pub mod Bounds
pub mod Parse
pub mod Whole
pub mod Bits
pub mod Golomb
pub mod Syntax
pub mod Written
mod Tests
use air_play_windows.Base.{
  ltb, leb, ◌==◌, if◌then◌else◌, length, get_or, Bytes, u32, sub32, ℕ, zero, suc, ◌+◌, ◌-◌, ◌*◌,
  ◌/◌, ◌%◌, ◌^◌, Bool, true, false, ◌&&◌, ◌||◌, [], ◌∷◌,
}
use air_play_windows.Base.Int.{ℤ, pos, ◌-ℤ◌, signed32}

-- `ebsp_to_rbsp`.
unfoldable pub ebsp_to_rbsp : Bytes → Bytes
ebsp_to_rbsp [] = []
ebsp_to_rbsp (a ∷ []) = a ∷ []
ebsp_to_rbsp (a ∷ b ∷ []) = a ∷ b ∷ []
ebsp_to_rbsp (a ∷ b ∷ c ∷ rest) =
    let copied = a ∷ ebsp_to_rbsp (b ∷ c ∷ rest) in
    let unescaped = 0 ∷ 0 ∷ ebsp_to_rbsp rest in
    if a == 0 && (b == 0 && c == 3) then unescaped else copied

pub record BitReader : Type 0 where
  pub buf : Bytes
  pub at : ℕ
  pub error : Bool
  pub overshift : ℕ

unfoldable pub u1 : BitReader → Bool × BitReader
u1 r =
    if leb (length r.buf * 8) r.at
    then (false, record r { error = true })
    else ((get_or r.buf (r.at / 8) 0 / 2 ^ (7 - r.at % 8)) % 2 == 1, record r { at = suc r.at })

abbrev pub bit : Bool → ℕ
bit true = 1
bit false = 0

-- The loop of `u`, `v` being what it has read.
unfoldable pub u_from : ℕ → ℕ → BitReader → ℕ × BitReader
u_from zero v r = (v, r)
u_from (suc n) v r =
    let (b, r') = u1 r in
    let later = u_from n ((v * 2 + bit b) % u32) r' in if r'.error then (0, r') else later

-- `u`.
unfoldable pub u : ℕ → BitReader → ℕ × BitReader
u n r = u_from n 0 r

-- The loop that counts leading zeros; it leaves at 32 at the latest, so 33 rounds are enough.
unfoldable pub count_zeros : ℕ → ℕ → BitReader → ℕ × BitReader
count_zeros zero run r = (run, r)
count_zeros (suc rounds) run r =
    let (b, r') = u1 r in
    let later = count_zeros rounds (suc run) r' in
    if b || (r'.error || leb 32 run) then (run, r') else later

abbrev pub shifted : ℕ → BitReader → ℕ
shifted run r = if ltb run 32 then 2 ^ run else r.overshift

abbrev pub ue_value : ℕ → ℕ × BitReader → ℕ × BitReader
ue_value run (v, r) = if r.error then (0, r) else ((shifted run r + (u32 - 1) + v) % u32, r)

unfoldable pub ue : BitReader → ℕ × BitReader
ue r =
    let (run, r') = count_zeros 33 0 r in
    if r'.error || run == 0 then (0, r') else ue_value run (u run r')

abbrev pub se_value : ℕ → ℤ
se_value k = if k % 2 == 1 then signed32 ((k + 1) % u32 / 2) else pos 0 -ℤ pos (k / 2)

-- `se`.
unfoldable pub se : BitReader → ℤ × BitReader
se r = let (k, r') = ue r in if r'.error then (pos 0, r') else (se_value k, r')

-- `out_w` and `out_h` of `compute_frame_size`, the sums being 32 bits wide.
abbrev cropped : ℕ → ℕ → ℕ
cropped size crop = if ltb crop size then sub32 size crop else size

unfoldable pub compute_frame_size : ℕ → ℕ → Bool → Bool → ℕ → ℕ → ℕ → ℕ → ℕ × ℕ
compute_frame_size w h frames_only cropping left right top bottom =
    let w_mb = (w + 1) * 16 % u32 in
    let h_map = (h + 1) * 16 % u32 in
    let h_mb = if frames_only then h_map else h_map * 2 % u32 in
    let crop_x = if cropping then 2 * (left + right) % u32 else 0 in
    let crop_y =
      if cropping then 2 * (top + bottom) * (if frames_only then 1 else 2) % u32 else 0 in
    (cropped w_mb crop_x, cropped h_mb crop_y)
