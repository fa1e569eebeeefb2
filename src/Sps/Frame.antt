-- ===== src/Sps/Frame.antt =====
-- The frame size that a parameter set gives.
use air_play_windows.Base.{if◌then◌else◌, ℕ, ◌+◌, ◌-◌, ◌*◌, ◌^◌, ◌<◌, ◌≡◌, Bool, true, false, arith}
use air_play_windows.Sps.{compute_frame_size}

-- For a coded picture of fewer than 2 ^ 27 macroblocks a side and a crop of fewer samples than
-- the picture has, the width and height are the coded size less the crop, with two fields to a frame
-- where frame_mbs_only_flag is 0.
pub compute_frame_size_crop :
    (w h : ℕ) (frames_only : Bool) (left right top bottom : ℕ)
    → w + 1 < 2 ^ 27
    → h + 1 < 2 ^ 27
    → 2 * (left + right) < 16 * (w + 1)
    → 2 * (top + bottom) < 16 * (h + 1)
    → compute_frame_size w h frames_only true left right top bottom ≡ (
      16 * (w + 1) - 2 * (left + right),
      (if frames_only then 1 else 2) * (16 * (h + 1) - 2 * (top + bottom)),
    )
unfolding compute_frame_size
compute_frame_size_crop w h true left right top bottom ws hs across down = ground arith
compute_frame_size_crop w h false left right top bottom ws hs across down = ground arith
