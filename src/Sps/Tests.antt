-- ===== src/Sps/Tests.antt =====
-- The size of a 1920 by 1080 picture, which is coded as 120 by 68 macroblocks.
use air_play_windows.Sps.Bits.{all_bits}
use air_play_windows.Sps.Golomb.{code}
use air_play_windows.Sps.Parse.{sized, parse_h264_sps}
use air_play_windows.Sps.Syntax.{by_counter, Syntax, IsSyntax, sps_bits, fields_of}
use air_play_windows.Sps.Written.{info_of, parse_h264_sps-written}
use air_play_windows.Base.{Bytes, ◌≡◌, refl, Bool, true, false, some, List, [], ◌∷◌, arith}
use air_play_windows.Sps.{BitReader, u1, u_from, u, count_zeros, ue, compute_frame_size}
use air_play_windows.Sps.Escape.{escape}

abbrev code_buffer : Bytes
code_buffer = 45 ∷ []

abbrev code_reader : BitReader
code_reader = record { buf = code_buffer; at = 0; error = false; overshift = 0 }

reads_four : (ue code_reader).0 ≡ 4
unfolding ue count_zeros u1 u u_from
reads_four = refl

-- 1920 by 1080 in the high profile.
abbrev full_hd : Syntax
full_hd = record {
  profile = 100;
  level = 40;
  set_id = 0;
  chroma = record {
    format = 1;
    plane_flag = false;
    luma_depth = 0;
    chroma_depth = 0;
    bypass = false;
  };
  frame_num = 0;
  order = by_counter 2;
  ref_frames = 1;
  gaps = false;
  width = 119;
  height = 67;
  frames_only = true;
  adaptive = false;
  direct = true;
  crop = some (record { left = 0; right = 0; top = 0; bottom = 4 });
}

abbrev full_hd_payload : Bytes
full_hd_payload = 172 ∷ 218 ∷ 1 ∷ 224 ∷ 8 ∷ 159 ∷ 150 ∷ []

abbrev stop_bits : List Bool
stop_bits = true ∷ false ∷ []

full_hd_written : all_bits full_hd_payload ≡ sps_bits full_hd stop_bits
unfolding code
full_hd_written = refl

full_hd-IsSyntax : IsSyntax full_hd
full_hd-IsSyntax = record {
  set_id = omega arith;
  chroma = (omega arith, omega arith, omega arith);
  frame_num = omega arith;
  order = omega arith;
  ref_frames = omega arith;
  width = omega arith;
  height = omega arith;
  crop = (omega arith, omega arith, omega arith, omega arith);
}

parse_h264_sps-written_example :
    parse_h264_sps 0 (0x67 ∷ escape 0 (100 ∷ 0 ∷ 40 ∷ full_hd_payload))
    ≡ (true, sized (info_of full_hd) (fields_of full_hd))
parse_h264_sps-written_example =
    parse_h264_sps-written 0 0x67 0 full_hd full_hd_payload stop_bits refl full_hd-IsSyntax
      full_hd_written

full_hd_size : (sized (info_of full_hd) (fields_of full_hd)).height ≡ 1080
unfolding compute_frame_size
full_hd_size = refl
