-- ===== src/Decoder.antt =====
-- src/video/h264_decoder.cpp: the decoder behind a mirror connection, `H264Decoder` over the calls
-- of FFmpeg. Contexts `X` and frames `F` are FFmpeg's. The functions that read pixels are left out.
pub mod Config
pub mod Written
pub mod Arrays
pub mod Wrapped
pub mod Idr
pub mod Reopen
mod Tests
use air_play_windows.Base.{
  ltb, ◌==◌, if◌then◌else◌, length, get_or, Bytes, is_empty, ℕ, ◌+◌, Bool, true, false, not, ◌&&◌,
  Option, none, some, [], ◌++◌,
}
use air_play_windows.Nal.{NalCodec, h264, hevc}
use air_play_windows.Decoder.Config.{parse_avcc, Sets, parse_hvcc, find_inner_config_box}

pub data Sent : Type 0 where
  sent send_again send_failed : Sent

-- `receive_again` stands for EAGAIN and for EOF.
pub data Received (F : Type 0) : Type 0 where
  received : F → Received F
  receive_again receive_failed : Received F

-- `set_options` is what `open` sets in a new context, with the device of the renderer or without,
-- and `set_software` what it sets when it tries again without it.
pub record Ffmpeg (X F : Type 0) : Type 0 where
  pub find_decoder : NalCodec → Bool
  pub alloc_context : NalCodec → Option X
  pub set_options : Bool → X → X
  pub set_software : X → X
  pub open2 : X → X × Bool
  pub send_packet : Bytes → X → X × Sent
  pub receive_frame : X → X × Received F
  pub width : F → ℕ
  pub height : F → ℕ
  pub on_gpu : F → Bool
  pub is_planar : F → Bool

-- `H264Decoder::Impl`. `has_device` is `hwaccel_requested && hw_device_d3d11`, and `on_device` that
-- `backend` is the device.
pub record Impl (X : Type 0) : Type 0 where
  pub has_device : Bool
  pub on_device : Bool
  pub codec_id : NalCodec
  pub ctx : Option X
  pub vps_annexb : Bytes
  pub sps_annexb : Bytes
  pub pps_annexb : Bytes
  pub last_w : ℕ
  pub last_h : ℕ
  pub frame_is_hw : Bool
  pub last_is_yuv420 : Bool
  pub frames_out : ℕ

abbrev pub same_codec : NalCodec → NalCodec → Bool
same_codec h264 h264 = true
same_codec hevc hevc = true
same_codec h264 hevc = false
same_codec hevc h264 = false

abbrev pub is_hevc : {X : Type 0} → Impl X → Bool
is_hevc d = same_codec d.codec_id hevc

-- The bytes of a packet: a key frame stands behind the cached parameter sets.
unfoldable pub packet_of : {X : Type 0} → Bool → Bytes → Impl X → Bytes
packet_of is_idr nal d =
    if is_idr then d.vps_annexb ++ (d.sps_annexb ++ (d.pps_annexb ++ nal)) else nal

module _ {X F : Type 0} (ff : Ffmpeg X F) where
  -- The second try of `open`, without the device.
  abbrev opened_software : X × Bool → Impl X → Impl X × Bool
  opened_software (x, ok) d =
      if ok
      then (record d { ctx = some x; on_device = false }, true)
      else (record d { ctx = some x }, false)

  abbrev pub retry_with : Option X → Impl X → Impl X × Bool
  retry_with none d = (record d { ctx = none }, false)
  retry_with (some x) d = opened_software (ff.open2 (ff.set_software x)) d

  abbrev opened_context : X × Bool → Impl X → Impl X × Bool
  opened_context (x, ok) d =
      if ok
      then (record d { ctx = some x }, true)
      else if d.has_device
      then retry_with (ff.alloc_context d.codec_id) d
      else (record d { ctx = some x }, false)

  abbrev pub open_with : Option X → Impl X → Impl X × Bool
  open_with none d = (record d { ctx = none }, false)
  open_with (some x) d =
      opened_context (ff.open2 (ff.set_options d.has_device x))
        (record d { on_device = d.has_device })

  -- `Impl::open`. FFmpeg finds the same decoder when it is asked again.
  unfoldable pub open_codec : NalCodec → Impl X → Impl X × Bool
  open_codec id d =
      if ff.find_decoder id
      then open_with (ff.alloc_context id) (record d { codec_id = id })
      else (d, false)

  -- `reopen_for_sps_change`.
  unfoldable pub reopen : NalCodec → Impl X → Impl X × Bool
  reopen id d = if same_codec d.codec_id id then (d, true) else open_codec id d

  abbrev pub cache : Sets → Impl X × Bool → Impl X × Bool
  cache s (d, ok) =
      if ok
      then (record d { vps_annexb = s.vps; sps_annexb = s.sps; pps_annexb = s.pps }, true)
      else (d, false)

  abbrev try_hvcc : Option Sets → Impl X → Impl X × Bool
  try_hvcc none d = (d, false)
  try_hvcc (some s) d = cache s (reopen hevc d)

  abbrev pub try_avcc : Bytes → Option (Bytes × Bytes) → Impl X → Impl X × Bool
  try_avcc cfg none d = try_hvcc (parse_hvcc cfg) d
  try_avcc cfg (some (sps, pps)) d =
      cache (record { vps = []; sps = sps; pps = pps }) (reopen h264 d)

  abbrev pub configure_with : Bytes → Impl X → Impl X × Bool
  configure_with cfg d = if get_or cfg 0 0 == 1 then try_avcc cfg (parse_avcc cfg) d else (d, false)

  abbrev pub unwrapped : Option Bytes → Impl X → Impl X × Bool
  unwrapped none d = (d, false)
  unwrapped (some inner) d = configure_with inner d

  unfoldable pub set_parameter_sets_from_avcc : Bytes → Impl X → Impl X × Bool
  set_parameter_sets_from_avcc blob d =
      if ltb (length blob) 7
      then (d, false)
      else if get_or blob 0 0 == 1
      then configure_with blob d
      else unwrapped (find_inner_config_box blob) d

  -- The frame that `decode` got, if any, and its result.
  abbrev on_received : X × Received F → Impl X → Impl X × (Option F × Bool)
  on_received (x, receive_again) d = (record d { ctx = some x }, (none, true))
  on_received (x, receive_failed) d = (record d { ctx = some x }, (none, false))
  on_received (x, received f) d = (
    record d {
      ctx = some x;
      last_w = ff.width f;
      last_h = ff.height f;
      frame_is_hw = ff.on_gpu f;
      last_is_yuv420 = not (ff.on_gpu f) && ff.is_planar f;
      frames_out = d.frames_out + 1;
    },
    (some f, true),
  )

  abbrev on_sent : X × Sent → Impl X → Impl X × (Option F × Bool)
  on_sent (x, sent) d = on_received (ff.receive_frame x) d
  on_sent (x, send_again) d = on_received (ff.receive_frame x) d
  on_sent (x, send_failed) d = (record d { ctx = some x }, (none, false))

  -- What follows a packet that is handed to FFmpeg.
  abbrev pub submit : Bytes → Option X → Impl X → Impl X × (Option F × Bool)
  submit packet none d = (d, (none, false))
  submit packet (some x) d = on_sent (ff.send_packet packet x) d

  unfoldable pub decode : Bytes → Bool → Impl X → Impl X × (Option F × Bool)
  decode nal is_idr d =
      if is_empty nal then (d, (none, false)) else submit (packet_of is_idr nal d) d.ctx d
