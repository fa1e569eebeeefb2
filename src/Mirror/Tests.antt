-- ===== src/Mirror/Tests.antt =====
-- The reader on one frame that comes in two pieces, with a decoder that remembers its payloads.
use air_play_windows.Base.{
  length, take, drop, All, Bytes, IsByte, ℕ, ◌%◌, ◌<◌, ◌≡◌, refl, subst, true, false, some, List,
  [], ◌∷◌, ◌++◌, arith,
}
use air_play_windows.Mirror.{
  Recv, arrived, timed_out, closed, recv_exact, get_u32_le, next_frame, Codecs, payload_bytes,
  Session, on_frame, reader_rounds, stream, reader_loop,
}
use air_play_windows.Mirror.Feed.{Decoded, on_frame-avcc}
use air_play_windows.Mirror.Frames.{IsFrame, written, reader_rounds_enough}
use air_play_windows.Mirror.Steps.{DecoderSteps, GivesBytes, reader_loop-DecoderSteps}
use air_play_windows.Mirror.Stream.{Frame, frames_in, on_frames, reader_loop-frames}
use air_play_windows.Nal.Avcc.{avcc, annexb}

abbrev zeros : Bytes
zeros = 0 ∷ 0 ∷ 0 ∷ 0 ∷ 0 ∷ 0 ∷ 0 ∷ 0 ∷ 0 ∷ 0 ∷ []

-- A header with the given size of the payload and type.
abbrev header_of : ℕ → ℕ → Bytes
header_of size ftype =
    size
    ∷ 0
    ∷ 0
    ∷ 0
    ∷ 0
    ∷ ftype
    ∷ 0
    ∷ 0
    ∷ (zeros ++ zeros ++ zeros ++ zeros ++ zeros ++ zeros ++ zeros ++ zeros ++ zeros ++ zeros
        ++ zeros ++ zeros)

abbrev unit_payload : List Bytes
unit_payload = (0x65 ∷ 7 ∷ []) ∷ []

abbrev idr : Frame
idr = (header_of 6 0x10, avcc unit_payload)

-- A cipher that does nothing but keep bytes bytes.
abbrev low_bytes : Bytes → Bytes
low_bytes [] = []
low_bytes (b ∷ bs) = b % 256 ∷ low_bytes bs

low_bytes-IsByte : (p : Bytes) → All IsByte (low_bytes p)
low_bytes-IsByte [] = tt
low_bytes-IsByte (b ∷ bs) = (omega arith, low_bytes-IsByte bs)

abbrev recorder : Codecs ℕ (List Bytes) ℕ
recorder = record {
  decrypt = λ k p. (k, some (low_bytes p));
  set_parameter_sets = λ p d. p ∷ d;
  is_hevc = λ d. false;
  decode = λ p is_idr d. (p ∷ d, some (length p));
}

recorder-GivesBytes : GivesBytes recorder
recorder-GivesBytes k p c h =
    let same : low_bytes p ≡ c = cc in subst (All IsByte) same (low_bytes-IsByte p)

abbrev fresh : Session ℕ (List Bytes) ℕ
fresh = record {
  decrypt = some 0;
  decoder = some [];
  renderer = some [];
  frames = 0;
  total_header = 0;
  total_body = 0;
  counts = λ t. 0;
  bytes_by_type = λ t. 0;
  nal_counts = λ t. 0;
}

abbrev pieces : List Recv
pieces =
    arrived (take 100 idr.0)
    ∷ timed_out
    ∷ arrived (drop 100 idr.0 ++ (0 ∷ 0 ∷ 0 ∷ []))
    ∷ arrived (2 ∷ 0x65 ∷ 7 ∷ [])
    ∷ closed
    ∷ []

finds_one : next_frame pieces ≡ some (idr, arrived [] ∷ closed ∷ [])
unfolding next_frame recv_exact get_u32_le
finds_one = refl

reader_loop-frames_example :
    reader_loop recorder pieces fresh ≡ on_frames recorder (frames_in (stream pieces)) fresh
reader_loop-frames_example = reader_loop-frames recorder pieces fresh

pieces_size : length (stream pieces) < 200
unfolding stream
pieces_size = omega arith

reader_rounds_enough_example :
    reader_rounds recorder 200 pieces fresh ≡ reader_loop recorder pieces fresh
reader_rounds_enough_example = reader_rounds_enough recorder 200 pieces fresh pieces_size

pieces_written : stream pieces ≡ written (idr ∷ []) ++ []
unfolding stream
pieces_written = refl

idr-IsFrame : IsFrame idr
unfolding get_u32_le
idr-IsFrame = (refl, refl, omega arith)

on_frame-avcc_example :
    Decoded recorder true
      (annexb unit_payload)
      []
      (record fresh { renderer = some (payload_bytes 134 ∷ []) })
      (on_frame recorder idr fresh)
on_frame-avcc_example =
    on_frame-avcc recorder (header_of 6 0x10) (avcc unit_payload) unit_payload 0 0 [] fresh refl
      (omega arith) refl refl refl (omega arith)

reader_loop-DecoderSteps_example :
    DecoderSteps recorder
      (frames_in (stream pieces))
      (some [])
      (reader_loop recorder pieces fresh).decoder
reader_loop-DecoderSteps_example =
    reader_loop-DecoderSteps recorder pieces fresh recorder-GivesBytes
