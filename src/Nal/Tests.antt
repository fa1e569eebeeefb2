-- ===== src/Nal/Tests.antt =====
-- Runs of the conversion, and the theorems at concrete payloads.
use air_play_windows.Base.{Bytes, ◌≡◌, refl, ◌↔◌, true, false, List, [], ◌∷◌, arith}
use air_play_windows.Nal.{h264, hevc, nal_loop, parse_nals_avcc_to_annexb}
use air_play_windows.Nal.Avcc.{avcc, annexb, units_of, parse_nals-avcc, IsAvcc, parse_nals-IsAvcc}

abbrev two_nals : List Bytes
two_nals = (0x67 ∷ 1 ∷ []) ∷ (0x65 ∷ 2 ∷ 3 ∷ []) ∷ []

converts_two :
    (parse_nals_avcc_to_annexb h264 (avcc two_nals)).payload
    ≡ 0 ∷ 0 ∷ 0 ∷ 1 ∷ 0x67 ∷ 1 ∷ 0 ∷ 0 ∷ 0 ∷ 1 ∷ 0x65 ∷ 2 ∷ 3 ∷ []
unfolding parse_nals_avcc_to_annexb nal_loop
converts_two = refl

-- The second prefix runs over the end: the first unit is converted and reported all the same.
fails_late :
    parse_nals_avcc_to_annexb hevc (0 ∷ 0 ∷ 0 ∷ 1 ∷ 0x40 ∷ 0 ∷ 0 ∷ 0 ∷ 9 ∷ 7 ∷ []) ≡ record {
      ok = false;
      units = record { type = 32; ref_idc = 0; offset = 4; size = 1 } ∷ [];
      payload = 0 ∷ 0 ∷ 0 ∷ 1 ∷ 0x40 ∷ 0 ∷ 0 ∷ 0 ∷ 9 ∷ 7 ∷ [];
    }
unfolding parse_nals_avcc_to_annexb nal_loop
fails_late = refl

parse_nals-avcc_example :
    parse_nals_avcc_to_annexb h264 (avcc two_nals)
    ≡ record { ok = true; units = units_of h264 0 two_nals; payload = annexb two_nals }
parse_nals-avcc_example = parse_nals-avcc h264 two_nals (omega arith)

converts_two_ok : (parse_nals_avcc_to_annexb h264 (avcc two_nals)).ok ≡ true
unfolding parse_nals_avcc_to_annexb nal_loop
converts_two_ok = refl

parse_nals-IsAvcc_example :
    ((parse_nals_avcc_to_annexb h264 (avcc two_nals)).ok ≡ true) ↔ IsAvcc (avcc two_nals)
parse_nals-IsAvcc_example = parse_nals-IsAvcc h264 (avcc two_nals) (omega arith)
