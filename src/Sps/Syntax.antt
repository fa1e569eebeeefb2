-- ===== src/Sps/Syntax.antt =====
-- A parameter set without scaling lists, and the bits that an encoder writes for it.
use air_play_windows.Base.{
  ◌==◌, if◌then◌else◌, u32, ℕ, ◌+◌, ◌<◌, Bool, true, false, Option, none, some, List, ◌∷◌,
}
use air_play_windows.Sps.Golomb.{code}
use air_play_windows.Sps.Parse.{has_chroma_ext, Crop, no_crop, Fields}

pub record Chroma : Type 0 where
  pub format : ℕ
  pub plane_flag : Bool
  pub luma_depth : ℕ
  pub chroma_depth : ℕ
  pub bypass : Bool

-- Pictures ordered by a counter of a given size, or as they come.
pub data Order : Type 0 where
  by_counter : ℕ → Order
  as_decoded : Order

-- The fields of a parameter set without scaling lists.
pub record Syntax : Type 0 where
  pub profile : ℕ
  pub level : ℕ
  pub set_id : ℕ
  pub chroma : Chroma
  pub frame_num : ℕ
  pub order : Order
  pub ref_frames : ℕ
  pub gaps : Bool
  pub width : ℕ
  pub height : ℕ
  pub frames_only : Bool
  pub adaptive : Bool
  pub direct : Bool
  pub crop : Option Crop

abbrev pub IsSmall : ℕ → Type 0
IsSmall n = n + 1 < u32

abbrev pub IsSmallChroma : Chroma → Type 0
IsSmallChroma c = IsSmall c.format × IsSmall c.luma_depth × IsSmall c.chroma_depth

abbrev pub IsSmallOrder : Order → Type 0
IsSmallOrder (by_counter n) = IsSmall n
IsSmallOrder as_decoded = Unit

abbrev pub IsSmallCrop : Option Crop → Type 0
IsSmallCrop none = Unit
IsSmallCrop (some c) = IsSmall c.left × IsSmall c.right × IsSmall c.top × IsSmall c.bottom

-- Every number has a code.
pub record IsSyntax (s : Syntax) : Type 0 where
  pub set_id : IsSmall s.set_id
  pub chroma : IsSmallChroma s.chroma
  pub frame_num : IsSmall s.frame_num
  pub order : IsSmallOrder s.order
  pub ref_frames : IsSmall s.ref_frames
  pub width : IsSmall s.width
  pub height : IsSmall s.height
  pub crop : IsSmallCrop s.crop

abbrev pub chroma_bits : Chroma → List Bool → List Bool
chroma_bits c rest =
    let depths = code c.luma_depth (code c.chroma_depth (c.bypass ∷ false ∷ rest)) in
    code c.format (if c.format == 3 then c.plane_flag ∷ depths else depths)

abbrev pub order_bits : Order → List Bool → List Bool
order_bits (by_counter n) rest = code 0 (code n rest)
order_bits as_decoded rest = code 2 rest

abbrev pub crop_bits : Option Crop → List Bool → List Bool
crop_bits none rest = false ∷ rest
crop_bits (some c) rest = true ∷ code c.left (code c.right (code c.top (code c.bottom rest)))

abbrev pub adaptive_bits : Bool → Bool → List Bool → List Bool
adaptive_bits true adaptive rest = rest
adaptive_bits false adaptive rest = adaptive ∷ rest

abbrev pub frame_bits : Syntax → List Bool → List Bool
frame_bits s rest = code s.ref_frames (
    s.gaps
    ∷ code s.width (
        code s.height (
          s.frames_only
          ∷ adaptive_bits s.frames_only s.adaptive (s.direct ∷ crop_bits s.crop rest))))

-- The bits behind the level, in front of others.
abbrev pub sps_bits : Syntax → List Bool → List Bool
sps_bits s rest =
    let later = code s.frame_num (order_bits s.order (frame_bits s rest)) in
    code s.set_id (if has_chroma_ext s.profile then chroma_bits s.chroma later else later)

abbrev pub crop_of : Option Crop → Crop
crop_of none = no_crop
crop_of (some c) = c

abbrev pub has_crop : Option Crop → Bool
has_crop none = false
has_crop (some c) = true

abbrev pub fields_of : Syntax → Fields
fields_of s = record {
  width_in_mbs = s.width;
  height_in_map_units = s.height;
  frame_mbs_only = s.frames_only;
  cropping = has_crop s.crop;
  crop = crop_of s.crop;
}
