-- ===== src/Audio/Network.antt =====
-- src/audio/audio_receiver.cpp, `thread_fn`: what the network thread does with a control packet and
-- with a data packet, up to the decoder. The clock's reading, whether the renderer is in its grace
-- period after a flush, and the AES-CBC decryption with the stream's key and IV are arguments; the
-- renderer and the decoder are there.
pub mod Dedup
pub mod Repeat
use air_play_windows.Base.{
  ltb, leb, ◌==◌, if◌then◌else◌, length, get_or, take, drop, Bytes, be32, u32, sub32, add32, ℕ, ◌+◌,
  ◌-◌, ◌*◌, ◌/◌, ◌%◌, ◌^◌, Bool, true, false, not, ◌&&◌, ◌||◌, Option, none, some, List, [], ◌∷◌,
  ◌++◌,
}
use air_play_windows.Base.Int.{ℤ, pos, ◌-ℤ◌, leb_ℤ}
use air_play_windows.Audio.Intake.{enqueue}
use air_play_windows.Audio.Playout.Timing.{ahead}
use air_play_windows.Audio.Queue.{State}

-- The local variables of the thread. `seen` is the bit vector `seen_seq` of 65536 entries.
pub record Network : Type 0 where
  pub seen : ℕ → Bool
  pub pkts : ℕ
  pub total_bytes : ℕ
  pub dedup_dropped : ℕ
  pub sync_packets : ℕ
  pub audio_ever_seen : Bool
  pub last_packet : ℤ
  pub have_first_packet : Bool

abbrev byte_at : Bytes → ℕ → ℕ
byte_at p i = get_or p i 0

abbrev pub be32_at : Bytes → ℕ → ℕ
be32_at p i = be32 (byte_at p i) (byte_at p (i + 1)) (byte_at p (i + 2)) (byte_at p (i + 3))

-- The anchor of a timing packet.
unfoldable pub set_anchor : Bytes → State → State
set_anchor control s =
    let ntp = be32_at control 8 * 2 ^ 32 + be32_at control 12 in
    let ahead = sub32 (be32_at control 16) (be32_at control 4) in
    record s {
      sync_rtp = be32_at control 4;
      sync_ntp = ntp;
      have_anchor = not (ntp == 0);
      source_lead_frames =
          if leb ahead (s.sample_rate * 5 % u32) then ahead else s.source_lead_frames;
    }

abbrev pub is_timing : Bytes → Bool
is_timing control = leb 20 (length control) && byte_at control 1 % 128 == 0x54

-- A datagram on the control socket.
unfoldable pub on_control : Bytes → State → Network → State × Network
on_control control s w =
    if is_timing control
    then (set_anchor control s, record w { sync_packets = w.sync_packets + 1 })
    else (s, w)

-- The playback rate that a wait without data pushes: 0 after half a second of silence.
unfoldable pub on_silence : ℤ → Network → Option ℕ
on_silence now w =
    if w.audio_ever_seen && leb_ℤ (pos 500000000) (now -ℤ w.last_packet) then some 0 else none

abbrev pub seq_of : Bytes → ℕ
seq_of p = byte_at p 2 * 256 + byte_at p 3

abbrev pub ts_of : Bytes → ℕ
ts_of p = be32_at p 4

unfoldable pub note_first : ℤ → Bytes → State → Network → State × Network
note_first now p s w = if w.have_first_packet then (s, w) else (
  record s { first_packet_rtp = be32_at p 4; first_packet_ns = now },
  record w { have_first_packet = true },
)

-- The silence watchdog on a packet, and the rate that it pushes.
unfoldable pub note_audio : ℤ → Bool → Bytes → Network → Network × Option ℕ
note_audio now grace p w =
    if leb 100 (length p)
    then (record w { last_packet = now; audio_ever_seen = true }, if grace then none else some 1)
    else (w, none)

-- AES-CBC on the whole blocks of the payload; the rest is not encrypted.
unfoldable pub cleartext : (Bytes → Bytes) → Bytes → Bytes
cleartext decrypt payload =
    let encrypted_len = length payload / 16 * 16 in
    decrypt (take encrypted_len payload) ++ drop encrypted_len payload

unfoldable pub count_packet : Bytes → Network → Network
count_packet payload w = record w {
  pkts = w.pkts + 1;
  total_bytes = w.total_bytes + length payload;
}

abbrev pub mark : ℕ → (ℕ → Bool) → ℕ → Bool
mark seq seen q = q == seq || seen q

-- The 1024 entries from `erase_from` on, modulo 65536, are cleared.
abbrev pub forget : ℕ → (ℕ → Bool) → ℕ → Bool
forget erase_from seen q = not (ltb ((q + 65536 - erase_from) % 65536) 1024) && seen q

-- The vector after a packet of real audio, and whether the packet is a duplicate.
unfoldable pub admit : ℕ → ℕ → (ℕ → Bool) → (ℕ → Bool) × Bool
admit seq pkts seen = if seen seq then (seen, true) else (
  if pkts % 1024 == 0 then forget ((seq + 65536 - 8192) % 65536) (mark seq seen) else mark seq seen,
  false,
)

unfoldable pub dedup : ℕ → Network → Network × Bool
dedup seq w =
    let (seen', duplicate) = admit seq w.pkts w.seen in
    (
      record w { seen = seen'; dedup_dropped = w.dedup_dropped + (if duplicate then 1 else 0) },
      duplicate,
    )

-- What the decoder gets: the RTP time and the frame.
abbrev pub to_decoder : (Bytes → Bytes) → Bytes → Network × Bool → Network × Option (ℕ × Bytes)
to_decoder decrypt p (w, true) = (w, none)
to_decoder decrypt p (w, false) = (w, some (ts_of p, cleartext decrypt (drop 12 p)))

-- A payload below 100 bytes is counted, but is no audio.
unfoldable pub filter_frame : (Bytes → Bytes) → Bytes → Network → Network × Option (ℕ × Bytes)
filter_frame decrypt p w =
    let counted = count_packet (drop 12 p) w in
    if leb 100 (length (drop 12 p))
    then to_decoder decrypt p (dedup (seq_of p) counted)
    else (counted, none)

pub record Received : Type 0 where
  pub state : State
  pub network : Network
  pub rate : Option ℕ
  pub frame : Option (ℕ × Bytes)

-- A datagram on the data socket.
unfoldable pub on_data : (Bytes → Bytes) → ℤ → Bool → Bytes → State → Network → Received
on_data decrypt now grace p s w =
    let (s1, w1) = note_first now p s w in
    let (w2, rate) = note_audio now grace p w1 in
    let (w3, frame) = filter_frame decrypt p w2 in
    if ltb (length p) 12
    then record { state = s; network = w; rate = none; frame = none }
    else record { state = s1; network = w3; rate = rate; frame = frame }

-- The loop that drains the decoder: the blocks with the readings made for each, `pcm_rtp` being the
-- time of the next one.
unfoldable pub drain : ℕ → List (ℤ × (ℤ × List ℕ)) → State → State
drain pcm_rtp [] s = s
drain pcm_rtp ((now, (margin, samples)) ∷ blocks) s =
    drain (add32 pcm_rtp (length samples / 2)) blocks (enqueue now margin pcm_rtp samples s)
