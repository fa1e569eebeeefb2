-- ===== src/Decoder/Tests.antt =====
-- A toy FFmpeg whose context is the list of packets that it got, and which cannot open HEVC when it
-- starts with a packet of one byte.
use air_play_windows.Base.{
  drop, All, Bytes, strip_prefix, ℕ, zero, suc, ◌<◌, ◌≡◌, refl, Bool, true, false, Option, none,
  some, List, [], ◌∷◌, ◌++◌, arith,
}
use air_play_windows.Decoder.Arrays.{Array, IsArray, hvcc_record}
use air_play_windows.Decoder.Config.{Sets, box_at}
use air_play_windows.Decoder.Idr.{
  cached, set_parameter_sets-hvcc, decoder_codecs, on_frame-avcc_idr,
}
use air_play_windows.Decoder.Reopen.{reopen-open_codec}
use air_play_windows.Decoder.Wrapped.{box, avcc_code, set_parameter_sets-box}
use air_play_windows.Decoder.Written.{Avcc, avcc_record, IsAvccRecord}
use air_play_windows.Nal.{h264, hevc, start_code}
use air_play_windows.Nal.Avcc.{avcc, annexb}
use air_play_windows.Mirror.{Session, on_frame}
use air_play_windows.Decoder.{
  sent, received, Ffmpeg, Impl, open_codec, reopen, set_parameter_sets_from_avcc, submit,
}

abbrev opens : List Bytes → Bool
opens ((b ∷ []) ∷ packets) = false
opens packets = true

abbrev toy : Ffmpeg (List Bytes) ℕ
toy = record {
  find_decoder = λ id. true;
  alloc_context = λ id. some (elim id [ h264 ↦ [] | hevc ↦ (0 ∷ []) ∷ [] ]);
  set_options = λ device x. x;
  set_software = λ x. x;
  open2 = λ x. (x, opens x);
  send_packet = λ packet x. (packet ∷ x, sent);
  receive_frame = λ x. (x, received 7);
  width = λ f. 1920;
  height = λ f. 1080;
  on_gpu = λ f. false;
  is_planar = λ f. true;
}

abbrev start : Impl (List Bytes)
start = record {
  has_device = false;
  on_device = false;
  codec_id = h264;
  ctx = some [];
  vps_annexb = [];
  sps_annexb = [];
  pps_annexb = [];
  last_w = 0;
  last_h = 0;
  frame_is_hw = false;
  last_is_yuv420 = false;
  frames_out = 0;
}

abbrev config : Avcc
config = record {
  profile = 100;
  constraints = 0;
  level = 40;
  length_size = 255;
  high = 7;
  sps = 103 ∷ (1 ∷ []);
  more_sps = [];
  pps = 104 ∷ [];
  more_pps = (105 ∷ []) ∷ [];
}

abbrev config-IsAvccRecord : IsAvccRecord config
config-IsAvccRecord = record {
  few = omega arith;
  sps_fits = omega arith;
  pps_fits = omega arith;
  more_sps_fit = tt;
  more_pps_fit = (omega arith, tt);
}

abbrev plain : ℕ → Bytes → ℕ × Option Bytes
plain k b = (suc k, some b)

abbrev session : Session ℕ (Impl (List Bytes)) ℕ
session = record {
  decrypt = some 0;
  decoder = some start;
  renderer = some [];
  frames = 0;
  total_header = 0;
  total_body = 0;
  counts = λ k. 0;
  bytes_by_type = λ k. 0;
  nal_counts = λ k. 0;
}

abbrev config_header : Bytes
config_header = 0 ∷ (0 ∷ (0 ∷ (0 ∷ (1 ∷ (0 ∷ [])))))

abbrev idr_header : Bytes
idr_header = 0 ∷ (0 ∷ (0 ∷ (0 ∷ (0 ∷ (16 ∷ [])))))

h264_already : reopen toy h264 start ≡ (start, true)
unfolding reopen
h264_already = refl

abbrev configured : Impl (List Bytes)
configured = cached toy [] (start_code ++ config.sps) (start_code ++ config.pps) start

on_frame-avcc_idr_example :
    (on_frame
      (decoder_codecs toy plain)
      (idr_header, avcc ((101 ∷ (9 ∷ [])) ∷ []))
      (on_frame
        (decoder_codecs toy plain)
        (config_header, avcc_record config ++ [])
        session)).decoder
    ≡ some
        (submit toy
          (annexb (config.sps ∷ (config.pps ∷ ((101 ∷ (9 ∷ [])) ∷ []))))
          start.ctx
          configured).0
on_frame-avcc_idr_example =
    on_frame-avcc_idr toy plain config_header idr_header [] (avcc ((101 ∷ (9 ∷ [])) ∷ []))
      (101 ∷ (9 ∷ [])) config [] 0 1 start start session refl refl config-IsAvccRecord (omega arith)
      ((omega arith, omega arith), tt) refl refl refl h264_already

abbrev wrapping : Bytes
wrapping = 0 ∷ (0 ∷ [])

no_box_before :
    (i : ℕ)
    → i < 2
    → box_at avcc_code (drop i (wrapping ++ (box avcc_code (avcc_record config ++ []) ++ [])))
      ≡ none
unfolding box_at strip_prefix
no_box_before zero h = refl
no_box_before (suc zero) h = refl
no_box_before (suc (suc i)) h = absurd (omega arith)

set_parameter_sets-box_example :
    set_parameter_sets_from_avcc toy
      (wrapping ++ (box avcc_code (avcc_record config ++ []) ++ []))
      start
    ≡ (configured, true)
set_parameter_sets-box_example =
    set_parameter_sets-box toy wrapping [] [] config start start config-IsAvccRecord (omega arith)
      no_box_before refl h264_already

-- The first try to open HEVC fails.
first_try : (open_codec toy hevc start).1 ≡ false
unfolding open_codec
first_try = refl

reopen-open_codec_example :
    reopen toy hevc (open_codec toy hevc start).0 ≡ ((open_codec toy hevc start).0, true)
reopen-open_codec_example = reopen-open_codec toy hevc start refl

abbrev three : List Array
three =
    record { high = 2; nal_type = 32; nals = (64 ∷ []) ∷ [] }
    ∷ (record { high = 2; nal_type = 33; nals = (66 ∷ []) ∷ [] }
        ∷ (record { high = 2; nal_type = 34; nals = (68 ∷ (1 ∷ [])) ∷ [] } ∷ []))

abbrev main_profile : Bytes
main_profile =
    1
    ∷ (96
        ∷ (0
            ∷ (0
                ∷ (0
                    ∷ (0
                        ∷ (0
                            ∷ (0
                                ∷ (0
                                    ∷ (0
                                        ∷ (0
                                            ∷ (93
                                                ∷ (240
                                                    ∷ (0
                                                        ∷ (252
                                                            ∷ (253
                                                            ∷ (248
                                                            ∷ (248
                                                            ∷ (0 ∷ (0 ∷ (15 ∷ []))))))))))))))))))))

abbrev three-IsArray : All IsArray three
three-IsArray = (
  record { typed = omega arith; few = omega arith; fit = (omega arith, tt) },
  (
    record { typed = omega arith; few = omega arith; fit = (omega arith, tt) },
    (record { typed = omega arith; few = omega arith; fit = (omega arith, tt) }, tt),
  ),
)

abbrev hevc_sets : Sets
hevc_sets = record {
  vps = start_code ++ (64 ∷ []);
  sps = start_code ++ (66 ∷ []);
  pps = start_code ++ (68 ∷ (1 ∷ []));
}

abbrev hevc_start : Impl (List Bytes)
hevc_start = record start { codec_id = hevc }

hevc_already : reopen toy hevc hevc_start ≡ (hevc_start, true)
unfolding reopen
hevc_already = refl

set_parameter_sets-hvcc_example :
    set_parameter_sets_from_avcc toy (hvcc_record main_profile three ++ (9 ∷ [])) hevc_start
    ≡ (cached toy hevc_sets.vps hevc_sets.sps hevc_sets.pps hevc_start, true)
set_parameter_sets-hvcc_example =
    set_parameter_sets-hvcc toy main_profile (9 ∷ []) three hevc_sets hevc_start hevc_start refl
      refl three-IsArray refl hevc_already
