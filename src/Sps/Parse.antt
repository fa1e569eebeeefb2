-- ===== src/Sps/Parse.antt =====
-- src/airplay/h264_sps.cpp, `parse_h264_sps`: the row of fields of a sequence parameter set. The
-- signed sum of a scaling list is a number without bound here. The pointer is not null.
use air_play_windows.Base.{
  ltb, ◌==◌, if◌then◌else◌, length, get_or, drop, Bytes, ℕ, zero, suc, ◌+◌, ◌%◌, Bool, true, false,
  not, ◌||◌, ◌∷◌,
}
use air_play_windows.Base.Int.{ℤ, pos, negsuc, ◌+ℤ◌, ◌-ℤ◌}
use air_play_windows.Sps.{ebsp_to_rbsp, BitReader, u1, ue, se, compute_frame_size}

pub record SpsInfo : Type 0 where
  pub profile_idc : ℕ
  pub level_idc : ℕ
  pub width : ℕ
  pub height : ℕ
  pub interlaced : Bool

abbrev pub no_info : SpsInfo
no_info = record { profile_idc = 0; level_idc = 0; width = 0; height = 0; interlaced = false }

abbrev pub has_chroma_ext : ℕ → Bool
has_chroma_ext p =
    p == 100
    || p == 110
    || p == 122
    || p == 244
    || p == 44
    || p == 83
    || p == 86
    || p == 118
    || p == 128
    || p == 138
    || p == 139
    || p == 134
    || p == 135

-- C's remainder by 256.
abbrev pub rem_256 : ℤ → ℤ
rem_256 (pos n) = pos (n % 256)
rem_256 (negsuc n) = pos 0 -ℤ pos ((n + 1) % 256)

abbrev pub is_zero : ℤ → Bool
is_zero (pos n) = n == 0
is_zero (negsuc n) = false

-- `next` after an entry of a scaling list.
unfoldable pub next_scale : ℤ → ℤ → BitReader → ℤ × BitReader
next_scale last next r =
    let (delta, r') = se r in
    if is_zero next then (next, r) else (rem_256 (last +ℤ delta +ℤ pos 256), r')

-- The entries of a scaling list.
unfoldable pub scaling_list : ℕ → ℤ → ℤ → BitReader → BitReader
scaling_list zero last next r = r
scaling_list (suc size) last next r =
    let (next', r') = next_scale last next r in
    let later = scaling_list size (if is_zero next' then last else next') next' r' in
    if r.error then r else later

-- The scaling lists from number `i` on, of which `left` are to come.
unfoldable pub scaling_lists : ℕ → ℕ → BitReader → BitReader
scaling_lists zero i r = r
scaling_lists (suc left) i r =
    let (present, r') = u1 r in
    let size = if ltb i 6 then 16 else 64 in
    let r'' = if present then scaling_list size (pos 8) (pos 8) r' else r' in
    let later = scaling_lists left (i + 1) r'' in if r.error then r else later

abbrev pub scaling_matrix : ℕ → Bool × BitReader → BitReader
scaling_matrix chroma_format_idc (false, r) = r
scaling_matrix chroma_format_idc (true, r) =
    scaling_lists (if chroma_format_idc == 3 then 12 else 8) 0 r

abbrev pub skip_plane_flag : ℕ → BitReader → BitReader
skip_plane_flag chroma_format_idc r = if chroma_format_idc == 3 then (u1 r).1 else r

-- The extension of the high profiles.
unfoldable pub skip_chroma : BitReader → BitReader
skip_chroma r =
    let (chroma_format_idc, r1) = ue r in
    let r2 = skip_plane_flag chroma_format_idc r1 in
    let (bit_depth_luma, r3) = ue r2 in
    let (bit_depth_chroma, r4) = ue r3 in
    let (bypass, r5) = u1 r4 in scaling_matrix chroma_format_idc (u1 r5)

unfoldable pub skip_offsets : ℕ → BitReader → BitReader
skip_offsets zero r = r
skip_offsets (suc n) r = let later = skip_offsets n (se r).1 in if r.error then r else later

-- The fields of type 1.
abbrev pub skip_cycle : BitReader → BitReader
skip_cycle r = let (n, r') = ue (se (se (u1 r).1).1).1 in skip_offsets n r'

-- What stands behind `pic_order_cnt_type`.
abbrev pub skip_order_of : ℕ → BitReader → BitReader
skip_order_of kind r = if kind == 0 then (ue r).1 else if kind == 1 then skip_cycle r else r

unfoldable pub skip_order : BitReader → BitReader
skip_order r = let (pic_order_cnt_type, r') = ue r in skip_order_of pic_order_cnt_type r'

pub record Crop : Type 0 where
  pub left : ℕ
  pub right : ℕ
  pub top : ℕ
  pub bottom : ℕ

abbrev pub no_crop : Crop
no_crop = record { left = 0; right = 0; top = 0; bottom = 0 }

unfoldable pub read_crop : Bool → BitReader → Crop × BitReader
read_crop cropping r =
    let (l, r1) = ue r in
    let (rt, r2) = ue r1 in
    let (t, r3) = ue r2 in
    let (b, r4) = ue r3 in
    if cropping then (record { left = l; right = rt; top = t; bottom = b }, r4) else (no_crop, r)

pub record Fields : Type 0 where
  pub width_in_mbs : ℕ
  pub height_in_map_units : ℕ
  pub frame_mbs_only : Bool
  pub cropping : Bool
  pub crop : Crop

abbrev pub skip_adaptive : Bool → BitReader → BitReader
skip_adaptive true r = r
skip_adaptive false r = (u1 r).1

-- The fields from `num_ref_frames` on.
unfoldable pub read_fields : BitReader → Fields × BitReader
read_fields r =
    let (w, r1) = ue (u1 (ue r).1).1 in
    let (h, r2) = ue r1 in
    let (only, r3) = u1 r2 in
    let (direct, r4) = u1 (skip_adaptive only r3) in
    let (crops, r5) = u1 r4 in
    let (crop, r6) = read_crop crops r5 in
    (
      record {
        width_in_mbs = w;
        height_in_map_units = h;
        frame_mbs_only = only;
        cropping = crops;
        crop = crop;
      },
      r6,
    )

abbrev pub skip_chroma_of : ℕ → BitReader → BitReader
skip_chroma_of profile r = if has_chroma_ext profile then skip_chroma r else r

-- All the fields behind the level.
unfoldable pub read_all : ℕ → BitReader → Fields × BitReader
read_all profile r = read_fields (skip_order (ue (skip_chroma_of profile (ue r).1)).1)

abbrev pub sized : SpsInfo → Fields → SpsInfo
sized info f =
    let (w, h) =
      compute_frame_size f.width_in_mbs f.height_in_map_units f.frame_mbs_only f.cropping
        f.crop.left f.crop.right f.crop.top f.crop.bottom in
    record info { width = w; height = h; interlaced = not f.frame_mbs_only }

-- The result, and `out`.
abbrev pub finish : SpsInfo → Fields × BitReader → Bool × SpsInfo
finish info (f, r) = if r.error then (false, info) else (true, sized info f)

abbrev pub parse_rbsp : ℕ → Bytes → Bool × SpsInfo
parse_rbsp overshift (profile ∷ flags ∷ level ∷ rest) =
    finish (record no_info { profile_idc = profile; level_idc = level })
      (read_all profile (record { buf = rest; at = 0; error = false; overshift = overshift }))
parse_rbsp overshift rbsp = (false, no_info)

unfoldable pub parse_h264_sps : ℕ → Bytes → Bool × SpsInfo
parse_h264_sps overshift sps =
    if ltb (length sps) 4 || not (get_or sps 0 0 % 32 == 7)
    then (false, no_info)
    else parse_rbsp overshift (ebsp_to_rbsp (drop 1 sps))
