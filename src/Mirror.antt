-- ===== src/Mirror.antt =====
-- src/airplay/mirror_listener.cpp: the reader of a mirror connection. Decryption, the decoder and
-- its frames are the operations of `Codecs`; the time stamp that goes to the renderer with a frame,
-- the test image of the first frame and the log lines are left out. The pointers that may be null
-- are options.
pub mod Stream
pub mod Frames
pub mod Feed
pub mod Steps
mod Tests
use air_play_windows.Nal.{NalCodec, h264, hevc, NalUnit, Parsed, parse_nals_avcc_to_annexb}
use air_play_windows.Base.{
  ltb, leb, ◌==◌, if◌then◌else◌, length, get_or, take, drop, Bytes, is_empty, ℕ, zero, suc, ◌+◌,
  ◌-◌, ◌*◌, ◌^◌, Bool, not, ◌&&◌, ◌||◌, Option, none, some, List, [], ◌∷◌, ◌++◌,
}

-- What a pass of the receiving loop meets: bytes in the socket, of which `recv` takes as many as are
-- asked for, a timeout, the end of the stream, an error, or that `running_` is false.
pub data Recv : Type 0 where
  arrived : Bytes → Recv
  timed_out closed failed stopped : Recv

-- `len`, 0 or -1, or that it still waits when the passes end.
pub data Outcome : Type 0 where
  whole : Bytes → List Recv → Outcome
  peer_closed broken pending : Outcome

abbrev pub onto : Bytes → Outcome → Outcome
onto c (whole b es) = whole (c ++ b) es
onto c peer_closed = peer_closed
onto c broken = broken
onto c pending = pending

-- `recv_exact`; its callers ask for at least one byte.
unfoldable pub recv_exact : List Recv → ℕ → Outcome
recv_exact [] need = pending
recv_exact (arrived c ∷ es) need =
    let later = recv_exact es (need - length c) in
    if leb need (length c) then whole (take need c) (arrived (drop need c) ∷ es) else onto c later
recv_exact (timed_out ∷ es) need = recv_exact es need
recv_exact (closed ∷ es) need = peer_closed
recv_exact (failed ∷ es) need = broken
recv_exact (stopped ∷ es) need = broken

abbrev pub byte_at : Bytes → ℕ → ℕ
byte_at p i = get_or p i 0

unfoldable pub get_u32_le : Bytes → ℕ
get_u32_le b = byte_at b 0 + byte_at b 1 * 2 ^ 8 + byte_at b 2 * 2 ^ 16 + byte_at b 3 * 2 ^ 24

abbrev pub ftype_of : Bytes → ℕ
ftype_of header = byte_at header 4 * 256 + byte_at header 5

abbrev pub frame_video_non_idr : ℕ
frame_video_non_idr = 0x0000

abbrev pub frame_video_idr : ℕ
frame_video_idr = 0x0010

abbrev pub frame_sps_pps : ℕ
frame_sps_pps = 0x0100

-- The payload behind a header.
abbrev pub with_payload : Bytes → Outcome → Option ((Bytes × Bytes) × List Recv)
with_payload header (whole payload es) = some ((header, payload), es)
with_payload header peer_closed = none
with_payload header broken = none
with_payload header pending = none

abbrev pub after_header : Outcome → Option ((Bytes × Bytes) × List Recv)
after_header (whole header es) =
    let payload_size = get_u32_le header in
    if ltb 2_000_000 payload_size
    then none
    else if payload_size == 0
    then some ((header, []), es)
    else with_payload header (recv_exact es payload_size)
after_header peer_closed = none
after_header broken = none
after_header pending = none

-- The header and the payload of the next frame, or that the loop breaks.
unfoldable pub next_frame : List Recv → Option ((Bytes × Bytes) × List Recv)
next_frame es = after_header (recv_exact es 128)

-- `MirrorDecrypt::decrypt` with the state of its key stream, and the decoder's operations;
-- `decode` gives the frame that the renderer may share.
pub record Codecs (K D F : Type 0) : Type 0 where
  pub decrypt : K → Bytes → K × Option Bytes
  pub set_parameter_sets : Bytes → D → D
  pub is_hevc : D → Bool
  pub decode : Bytes → Bool → D → D × Option F

-- What the renderer has been told.
pub data Shown (F : Type 0) : Type 0 where
  payload_bytes : ℕ → Shown F
  avframe : F → Shown F

-- The members of `MirrorListener` and the variables of `reader_loop`.
pub record Session (K D F : Type 0) : Type 0 where
  pub decrypt : Option K
  pub decoder : Option D
  pub renderer : Option (List (Shown F))
  pub frames : ℕ
  pub total_header : ℕ
  pub total_body : ℕ
  pub counts : ℕ → ℕ
  pub bytes_by_type : ℕ → ℕ
  pub nal_counts : ℕ → ℕ

abbrev pub add_at : ℕ → ℕ → (ℕ → ℕ) → ℕ → ℕ
add_at key n counts k = if k == key then counts k + n else counts k

abbrev pub tell : {F : Type 0} → Shown F → Option (List (Shown F)) → Option (List (Shown F))
tell x none = none
tell x (some told) = some (told ++ (x ∷ []))

abbrev pub tell_frame : {F : Type 0} → Option F → Option (List (Shown F)) → Option (List (Shown F))
tell_frame none told = told
tell_frame (some f) told = tell (avframe f) told

module _ {K D F : Type 0} where
  unfoldable pub count_frame : ℕ → ℕ → Session K D F → Session K D F
  count_frame ftype payload_size s = record s {
    frames = s.frames + 1;
    total_header = s.total_header + 128;
    total_body = s.total_body + payload_size;
    counts = add_at ftype 1 s.counts;
    bytes_by_type = add_at ftype payload_size s.bytes_by_type;
    renderer = tell (payload_bytes (128 + payload_size)) s.renderer;
  }

  abbrev pub count_nals : List NalUnit → Session K D F → Session K D F
  count_nals [] s = s
  count_nals (u ∷ us) s = count_nals us (record s { nal_counts = add_at u.type 1 s.nal_counts })

module _ {K D F : Type 0} (codecs : Codecs K D F) where
  abbrev pub configured : Bytes → Option D → Option D
  configured payload none = none
  configured payload (some d) = some (codecs.set_parameter_sets payload d)

  -- The parameter sets of every configuration frame go to the decoder.
  unfoldable pub configure : ℕ → Bytes → Session K D F → Session K D F
  configure ftype payload s =
      if ftype == frame_sps_pps && not (is_empty payload)
      then record s { decoder = configured payload s.decoder }
      else s

  abbrev pub codec_of : Option D → NalCodec
  codec_of none = h264
  codec_of (some d) = if codecs.is_hevc d then hevc else h264

  abbrev pub decode_with : Bool → Bytes → Session K D F → Option D → Session K D F
  decode_with is_idr payload s none = s
  decode_with is_idr payload s (some d) =
      let (d', frame) = codecs.decode payload is_idr d in
      record s { decoder = some d'; renderer = tell_frame frame s.renderer }

  -- The decoder takes the payload, and the renderer the frame.
  unfoldable pub feed : Bool → Bytes → Session K D F → Session K D F
  feed is_idr payload s = decode_with is_idr payload s s.decoder

  abbrev pub feed_parsed : Bool → Parsed → Session K D F → Session K D F
  feed_parsed is_idr parsed s =
      if parsed.ok then feed is_idr parsed.payload (count_nals parsed.units s) else s

  -- What the decryption gave, converted to Annex B.
  abbrev pub feed_clear : Bool → Option Bytes → Session K D F → Session K D F
  feed_clear is_idr none s = s
  feed_clear is_idr (some clear) s =
      feed_parsed is_idr (parse_nals_avcc_to_annexb (codec_of s.decoder) clear) s

  abbrev pub is_encrypted : ℕ → Bool
  is_encrypted ftype = ftype == frame_video_idr || ftype == frame_video_non_idr

  abbrev pub decrypt_with : Bool → Bytes → Session K D F → Option K → Session K D F
  decrypt_with is_idr payload s none = s
  decrypt_with is_idr payload s (some k) =
      let (k', clear) = codecs.decrypt k payload in
      feed_clear is_idr clear (record s { decrypt = some k' })

  unfoldable pub play_video : ℕ → Bytes → Session K D F → Session K D F
  play_video ftype payload s =
      if is_encrypted ftype && leb 5 (length payload)
      then decrypt_with (ftype == frame_video_idr) payload s s.decrypt
      else s

  -- A round of `reader_loop` with a frame that came whole.
  unfoldable pub on_frame : Bytes × Bytes → Session K D F → Session K D F
  on_frame (header, payload) s =
      let ftype = ftype_of header in
      play_video ftype payload (configure ftype payload (count_frame ftype (length payload) s))

  -- The loop; a round takes at least the header's 128 bytes.
  unfoldable pub reader_rounds : ℕ → List Recv → Session K D F → Session K D F
  reader_rounds zero es s = s
  reader_rounds (suc fuel) es s = elim (next_frame es) [
    | none ↦ s
    | some (frame, es') ↦ reader_rounds fuel es' (on_frame frame s)
  ]

-- The bytes that come before the stream ends, fails or is stopped.
unfoldable pub stream : List Recv → Bytes
stream [] = []
stream (arrived c ∷ es) = c ++ stream es
stream (timed_out ∷ es) = stream es
stream (closed ∷ es) = []
stream (failed ∷ es) = []
stream (stopped ∷ es) = []

-- `reader_loop`, with a round for each byte.
unfoldable pub reader_loop :
    {K D F : Type 0} → Codecs K D F → List Recv → Session K D F → Session K D F
reader_loop codecs es s = reader_rounds codecs (suc (length (stream es))) es s
