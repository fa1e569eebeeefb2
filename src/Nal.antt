-- ===== src/Nal.antt =====
-- src/airplay/h264_nal.cpp and h264_nal.h: the in-place conversion of a mirror payload from
-- length-prefixed NAL units to Annex B.
-- The loop walks the suffix of the payload that it has not reached, `p + pos`, and returns that
-- suffix as it leaves it. A round takes at least five bytes, so the payload's length is fuel enough.
pub mod Avcc
pub mod Bounds
mod Tests
use air_play_windows.Base.{
  ltb, leb, ◌==◌, if◌then◌else◌, length, take, drop, Bytes, be32, ℕ, zero, suc, ◌+◌, ◌/◌, ◌%◌, Bool,
  true, false, ◌||◌, List, [], ◌∷◌, ◌++◌,
}

pub data NalCodec : Type 0 where
  h264 hevc : NalCodec

pub record NalUnit : Type 0 where
  pub type : ℕ
  pub ref_idc : ℕ
  pub offset : ℕ
  pub size : ℕ

-- `nh & 0x1f` or `(nh >> 1) & 0x3f`, and `(nh >> 5) & 0x03` or 0, on the header byte.
abbrev nal_type : NalCodec → ℕ → ℕ
nal_type h264 nh = nh % 32
nal_type hevc nh = nh / 2 % 64

abbrev nal_ref_idc : NalCodec → ℕ → ℕ
nal_ref_idc h264 nh = nh / 32 % 4
nal_ref_idc hevc nh = 0

abbrev pub nal_unit : NalCodec → ℕ → ℕ → ℕ → NalUnit
nal_unit codec nh offset size = record {
  type = nal_type codec nh;
  ref_idc = nal_ref_idc codec nh;
  offset = offset;
  size = size;
}

abbrev pub start_code : Bytes
start_code = 0 ∷ (0 ∷ (0 ∷ (1 ∷ [])))

-- The result, the units reported and the bytes that the loop leaves from its position on.
pub record Parsed : Type 0 where
  pub ok : Bool
  pub units : List NalUnit
  pub payload : Bytes

abbrev stop : Bool → Bytes → Parsed
stop b rest = record { ok = b; units = []; payload = rest }

-- One converted unit in front of what the later rounds give.
abbrev pub prepend : NalUnit → Bytes → Parsed → Parsed
prepend u body r = record {
  ok = r.ok;
  units = u ∷ r.units;
  payload = start_code ++ (body ++ r.payload);
}

-- The loop of `parse_nals_avcc_to_annexb`, `rest` being the payload from `offset_at` on. The last clause
-- has one to four bytes left: `pos + 4 > size`, or a length that is 0 or runs over the end.
pub nal_loop : ℕ → NalCodec → ℕ → Bytes → Parsed
nal_loop zero codec offset_at rest = stop false rest
nal_loop (suc fuel) codec offset_at [] = stop true []
nal_loop (suc fuel) codec offset_at (b0 ∷ b1 ∷ b2 ∷ b3 ∷ nh ∷ body) =
    let nal_len = be32 b0 b1 b2 b3 in
    let later = nal_loop fuel codec (offset_at + 4 + nal_len) (drop nal_len (nh ∷ body)) in
    if nal_len == 0 || ltb (length (nh ∷ body)) nal_len
    then stop false (b0 ∷ (b1 ∷ (b2 ∷ (b3 ∷ (nh ∷ body)))))
    else if leb 128 nh
    then stop false (b0 ∷ (b1 ∷ (b2 ∷ (b3 ∷ (nh ∷ body)))))
    else prepend (nal_unit codec nh (offset_at + 4) nal_len) (take nal_len (nh ∷ body)) later
nal_loop (suc fuel) codec offset_at rest = stop false rest

pub parse_nals_avcc_to_annexb : NalCodec → Bytes → Parsed
parse_nals_avcc_to_annexb codec p = nal_loop (suc (length p)) codec 0 p
