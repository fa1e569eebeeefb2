-- ===== src/Audio/Queue.antt =====
-- src/audio/audio_receiver.cpp: the queue's state and the operations of the control side,
-- `flush`, `resume`, `discard_pause` and `set_synchronized`. The clock's reading is an argument.
pub mod Count
pub mod Fence
use air_play_windows.Base.{
  if◌then◌else◌, length, is_empty, u32, add32, ℕ, ◌+◌, ◌-◌, ◌*◌, ◌/◌, ◌%◌, ◌^◌, Bool, true, false,
  not, ◌&&◌, ◌||◌, Option, none, some, List, [], ◌∷◌, ◌++◌,
}
use air_play_windows.Base.Int.{ℤ, pos, pos_part, ◌-ℤ◌, ltb_ℤ}
use air_play_windows.Audio.Trim.{trim_before}

pub record PcmFrame : Type 0 where
  pub rtp : ℕ
  pub samples : List ℕ
  pub local_target_ns : ℤ

-- The members of `AudioReceiver` that the queue's operations read and write. `has_ntp` is
-- `cfg_.ntp != nullptr`; the sample rate is positive, as `start` demands.
pub record State : Type 0 where
  pub sample_rate : ℕ
  pub preserve_paused_audio : Bool
  pub has_ntp : Bool
  pub synchronize : Bool
  pub pcm_queue : List PcmFrame
  pub queued_samples : ℕ
  pub sync_rtp : ℕ
  pub sync_ntp : ℕ
  pub have_anchor : Bool
  pub clear_output : Bool
  pub flush_boundary : Option ℕ
  pub paused_pcm : List PcmFrame
  pub paused_at_ns : ℤ
  pub imported_pause : Bool
  pub source_lead_frames : ℕ
  pub first_packet_rtp : ℕ
  pub first_packet_ns : ℤ

-- `size_t` arithmetic.
abbrev pub size_mod : ℕ
size_mod = 2 ^ 64

abbrev pub sub_size : ℕ → ℕ → ℕ
sub_size a b = (a + size_mod - b) % size_mod

abbrev pub add_size : ℕ → ℕ → ℕ
add_size a b = (a + b) % size_mod

abbrev pub is_some : Option ℕ → Bool
is_some none = false
is_some (some b) = true

-- `paused_pcm_.back()` of a queue that is not empty: its RTP end.
unfoldable pub end_rtp : PcmFrame → List PcmFrame → ℕ
end_rtp f [] = add32 f.rtp (length f.samples / 2)
end_rtp f (g ∷ gs) = end_rtp g gs

-- The loop that trims every block of a queue and erases the ones that become empty. The count is
-- `queued_samples_`.
unfoldable pub trim_queue : ℕ → List PcmFrame → ℕ → List PcmFrame × ℕ
trim_queue boundary [] queued = ([], queued)
trim_queue boundary (f ∷ fs) queued =
    let t = trim_before f.rtp f.samples boundary in
    let (rest, left) = trim_queue boundary fs (sub_size queued t.removed) in
    if is_empty t.pcm
    then (rest, left)
    else (record f { rtp = t.rtp; samples = t.pcm } ∷ rest, left)

-- `flush`, up to the point where the fence is set: what becomes of the saved tail.
unfoldable pub save_tail : Option ℕ → ℤ → State → State
save_tail boundary now s =
    let imported = s.imported_pause && is_some boundary in
    if imported
    then record s { imported_pause = true }
    else if s.preserve_paused_audio
        && s.synchronize
        && is_some boundary
        && not (is_empty s.pcm_queue)
    then record s { imported_pause = false; paused_pcm = s.pcm_queue; paused_at_ns = now }
    else record s { imported_pause = false; paused_pcm = []; paused_at_ns = pos 0 }

abbrev pub cut_queue : Option ℕ → State → State
cut_queue none s = record s { flush_boundary = none; pcm_queue = []; queued_samples = 0 }
cut_queue (some b) s =
    let (queue, queued) = trim_queue b s.pcm_queue s.queued_samples in
    record s { flush_boundary = some b; pcm_queue = queue; queued_samples = queued }

unfoldable pub flush : Option ℕ → ℤ → State → State
flush boundary now s =
    let t = cut_queue boundary (save_tail boundary now s) in record t { clear_output = true }

-- `frame.rtp += shift` on every saved block.
unfoldable pub shift_all : ℕ → List PcmFrame → List PcmFrame
shift_all shift [] = []
shift_all shift (f ∷ fs) =
    record f { rtp = add32 f.rtp shift; local_target_ns = pos 0 } ∷ shift_all shift fs

-- The sum that recounts the queue.
unfoldable pub count_samples : List PcmFrame → ℕ → ℕ
count_samples [] n = n
count_samples (f ∷ fs) n = count_samples fs (add_size n (length f.samples))

-- The body of `resume` behind its early returns, on a saved tail `f ∷ fs`.
unfoldable pub splice : ℕ → PcmFrame → List PcmFrame → State → State
splice shift f fs s =
    let last =
      end_rtp (record f { rtp = add32 f.rtp shift; local_target_ns = pos 0 })
        (shift_all shift fs) in
    let fresh = (trim_queue last s.pcm_queue 0).0 in
    let queue = shift_all shift (f ∷ fs) ++ fresh in
    record s {
      pcm_queue = queue;
      paused_pcm = [];
      queued_samples = count_samples queue 0;
      flush_boundary = some last;
    }

-- `static_cast<uint32_t>(elapsed * sample_rate / 1'000'000'000)`; `elapsed` is positive here.
abbrev pub pause_shift : ℤ → ℕ → ℕ
pause_shift elapsed rate = pos_part elapsed * rate / 1_000_000_000 % u32

abbrev pub resume_saved : List PcmFrame → ℤ → State → State
resume_saved [] now s = s
resume_saved (f ∷ fs) now s =
    let elapsed = now -ℤ s.paused_at_ns in
    if ltb_ℤ elapsed (pos 200_000_000) || ltb_ℤ (pos 120_000_000_000) elapsed || not s.synchronize
    then record s { paused_pcm = [] }
    else splice (pause_shift elapsed s.sample_rate) f fs s

unfoldable pub resume : ℤ → State → State
resume now s = if s.imported_pause then s else resume_saved s.paused_pcm now s

unfoldable pub discard_pause : State → State
discard_pause s = record s { paused_pcm = []; imported_pause = false }

abbrev pub xor : Bool → Bool → Bool
xor true b = not b
xor false b = b

-- A change of the mode flushes everything.
unfoldable pub set_synchronized : Bool → ℤ → State → State
set_synchronized enabled now s =
    let wanted = enabled && s.has_ntp in
    let t = record s { synchronize = wanted } in
    if xor s.synchronize wanted then flush none now t else t
