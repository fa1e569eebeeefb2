-- ===== src/Decoder/Wrapped.antt =====
-- Configuration records inside an MP4 sample entry.
use air_play_windows.Base.{
  ltb, leb, ◌==◌, length, get_or, drop, length-append, take-append, Bytes, codes, is_empty,
  be32_bytes, be32-be32_bytes, strip_prefix, ℕ, suc, ◌+◌, ◌-◌, ◌^◌, ◌≤◌, ◌<◌, ◌≡◌, refl, true,
  false, none, some, [], ◌∷◌, ◌++◌, arith,
}
use air_play_windows.Decoder.Config.{box_at, find_box, find_inner_config_box}
use air_play_windows.Decoder.Idr.{cached}
use air_play_windows.Decoder.Written.{Avcc, avcc_record, IsAvccRecord, parse_avcc-written}
use air_play_windows.Nal.{h264, start_code}
use air_play_windows.Decoder.{Ffmpeg, Impl, reopen, set_parameter_sets_from_avcc}

-- A box: its size, its code and its content.
abbrev pub box : Bytes → Bytes → Bytes
box fourcc inner = be32_bytes (length inner + 8) ++ (fourcc ++ inner)

abbrev pub avcc_code : Bytes
avcc_code = codes "avcC"

box_at-box :
    (inner behind : Bytes)
    → 1 ≤ length inner
    → length inner + 8 < 2 ^ 32
    → box_at avcc_code (box avcc_code inner ++ behind) ≡ some inner
unfolding box_at strip_prefix
box_at-box inner behind full fits =
    let size = be32-be32_bytes (length inner + 8) fits in
    let above : leb 9 (length inner + 8) ≡ true = ground (arith, full) in
    let within : leb (length inner + 8) (length (box avcc_code inner ++ behind)) ≡ true =
      ground (arith, length-append inner behind) in
    let content : length inner + 8 - 8 ≡ length inner = omega arith in
    rw (size, above, within, content, take-append inner behind)

-- The first place in `front` or behind it where a box with the code fits.
find_box-first :
    (fourcc front blob inner : Bytes)
    → ((i : ℕ) → i < length front → box_at fourcc (drop i (front ++ blob)) ≡ none)
    → is_empty blob ≡ false
    → box_at fourcc blob ≡ some inner
    → find_box fourcc (front ++ blob) ≡ some inner
unfolding find_box
find_box-first fourcc [] [] inner none_before full here = cc
find_box-first fourcc [] (b ∷ blob) inner none_before full here = rw (find_box, here)
find_box-first fourcc (x ∷ front) blob inner none_before full here =
    rw (find_box, none_before 0 (omega arith))
      (find_box-first fourcc front blob inner (λ i h. none_before (suc i) (omega arith)) full here)

module _ {X F : Type 0} (ff : Ffmpeg X F) where
  -- A blob that does not begin with 1 and holds an avcC as a box, with no earlier place where such a
  -- box would fit: where the codec is H.264 or can be opened, the first parameter set of each kind is
  -- cached behind a start code, whatever stands in front of the box, behind it, and behind the
  -- parameter sets.
  pub set_parameter_sets-box :
      (front extra behind : Bytes) (c : Avcc) (d d' : Impl X)
      → IsAvccRecord c
      → length (avcc_record c ++ extra) + 8 < 2 ^ 32
      → ((i : ℕ)
          → i < length front
          → box_at avcc_code (drop i (front ++ (box avcc_code (avcc_record c ++ extra) ++ behind)))
            ≡ none)
      → get_or (front ++ (box avcc_code (avcc_record c ++ extra) ++ behind)) 0 0 == 1 ≡ false
      → reopen ff h264 d ≡ (d', true)
      → set_parameter_sets_from_avcc ff
          (front ++ (box avcc_code (avcc_record c ++ extra) ++ behind))
          d
        ≡ (cached ff [] (start_code ++ c.sps) (start_code ++ c.pps) d', true)
  unfolding set_parameter_sets_from_avcc find_inner_config_box
  set_parameter_sets-box front extra behind c d d' ok fits none_before other reopened =
      let inner = avcc_record c ++ extra in
      let blob = box avcc_code inner ++ behind in
      let found =
        find_box-first avcc_code front blob inner none_before refl
          (box_at-box inner behind (omega arith) fits) in
      let long : ltb (length (front ++ blob)) 7 ≡ false =
        ground (arith, length-append front blob) in
      rw (long, other, found, parse_avcc-written c extra ok, reopened)
