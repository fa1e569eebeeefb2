-- ===== src/Audio/Intake.antt =====
-- src/audio/audio_receiver.cpp, `thread_fn`: what the network thread does under the lock with one
-- block of decoded PCM. The clock's reading and the device's pending time are arguments.
pub mod Bound
pub mod Fence
use air_play_windows.Base.{
  ltb, leb, ◌==◌, if◌then◌else◌, length, take, is_empty, u32, sub32, add32, ℕ, ◌+◌, ◌*◌, ◌/◌, ◌%◌,
  false, not, ◌&&◌, Option, none, some, List, [], ◌∷◌, ◌++◌,
}
use air_play_windows.Base.Int.{ℤ, pos, ◌+ℤ◌, ◌-ℤ◌, ◌*ℤ◌, ltb_ℤ, quot, signed32}
use air_play_windows.Audio.Queue.{PcmFrame, State, sub_size, add_size, end_rtp, count_samples}
use air_play_windows.Audio.Trim.{Trimmed, trim_before}

-- The loop that keeps the queue within five seconds, `have` samples about to be added.
unfoldable pub evict : ℕ → ℕ → List PcmFrame → ℕ → List PcmFrame × ℕ
evict have limit [] queued = ([], queued)
evict have limit (f ∷ fs) queued =
    if ltb limit (add_size queued have)
    then evict have limit fs (sub_size queued (length f.samples))
    else (f ∷ fs, queued)

abbrev pub limit_of : State → ℕ
limit_of s = s.sample_rate * 2 * 5

-- The block cut to the part between the saved tail's end and the fence, put behind the tail.
unfoldable pub extend_tail : ℕ → List PcmFrame → ℕ → ℕ → List ℕ → State → State
extend_tail b paused last rtp samples s =
    let t = trim_before rtp samples last in
    let remaining = sub32 b t.rtp in
    let kept = if ltb remaining (length t.pcm / 2) then take (remaining * 2) t.pcm else t.pcm in
    if (t.rtp == last && leb remaining (s.sample_rate * 5 % u32)) && not (is_empty t.pcm)
    then (if is_empty kept then s else record s {
      paused_pcm = paused ++ record { rtp = t.rtp; samples = kept; local_target_ns = pos 0 } ∷ [];
    })
    else s

abbrev pub drain_tail : Option ℕ → List PcmFrame → ℕ → List ℕ → State → State
drain_tail none paused rtp samples s = s
drain_tail (some b) [] rtp samples s = s
drain_tail (some b) (f ∷ fs) rtp samples s = extend_tail b (f ∷ fs) (end_rtp f fs) rtp samples s

unfoldable pub count_frames : List PcmFrame → ℕ
count_frames [] = 0
count_frames (f ∷ fs) = length f.samples / 2 + count_frames fs

abbrev pub ns_of : ℕ → ℕ → ℤ
ns_of frames rate = pos (frames * 1_000_000_000 / rate)

-- The loop that moves the saved tail to the live clock, `target` being the next deadline.
unfoldable pub retarget : ℕ → ℤ → ℕ → List PcmFrame → List PcmFrame
retarget shift target rate [] = []
retarget shift target rate (f ∷ fs) =
    record f { rtp = add32 f.rtp shift; local_target_ns = target }
    ∷ retarget shift (target +ℤ ns_of (length f.samples / 2) rate) rate fs

abbrev pub max_ℤ : ℤ → ℤ → ℤ
max_ℤ a b = if ltb_ℤ a b then b else a

unfoldable pub restore_tail : ℤ → ℤ → ℕ → PcmFrame → List PcmFrame → State → State
restore_tail now margin rtp f fs s =
    let shift = sub32 rtp (end_rtp f fs) in
    let delta = signed32 (sub32 rtp s.first_packet_rtp) in
    let fresh =
      s.first_packet_ns
      +ℤ quot ((delta +ℤ pos s.source_lead_frames) *ℤ pos 1_000_000_000) s.sample_rate in
    let tail = ns_of (count_frames (f ∷ fs)) s.sample_rate in
    let target = max_ℤ now ((fresh -ℤ tail) +ℤ margin) in
    let saved = retarget shift target s.sample_rate (f ∷ fs) in
    record s {
      pcm_queue = s.pcm_queue ++ saved;
      queued_samples = count_samples saved s.queued_samples;
    }

abbrev pub restore_saved : List PcmFrame → ℤ → ℤ → ℕ → State → State
restore_saved [] now margin rtp s = s
restore_saved (f ∷ fs) now margin rtp s =
    if ltb_ℤ (now -ℤ s.paused_at_ns) (pos 120_000_000_000)
    then restore_tail now margin rtp f fs s
    else s

unfoldable pub splice_import : ℤ → ℤ → ℕ → State → State
splice_import now margin rtp s =
    let t = restore_saved s.paused_pcm now margin rtp s in
    if s.imported_pause then record t { paused_pcm = []; imported_pause = false } else s

abbrev pub fence : Option ℕ → ℕ → List ℕ → Trimmed
fence none rtp samples = record { rtp = rtp; pcm = samples; removed = 0 }
fence (some b) rtp samples = trim_before rtp samples b

unfoldable pub push_block : ℕ → List ℕ → State → State
push_block rtp samples s =
    let t = fence s.flush_boundary rtp samples in
    if is_empty t.pcm then s else record s {
      flush_boundary = none;
      queued_samples = add_size s.queued_samples (length t.pcm);
      pcm_queue =
          s.pcm_queue ++ record { rtp = t.rtp; samples = t.pcm; local_target_ns = pos 0 } ∷ [];
    }

unfoldable pub evict_for : ℕ → State → State
evict_for have s =
    let (queue, queued) = evict have (limit_of s) s.pcm_queue s.queued_samples in
    record s { pcm_queue = queue; queued_samples = queued }

unfoldable pub drain_for : ℕ → List ℕ → State → State
drain_for rtp samples s =
    if s.imported_pause then s else drain_tail s.flush_boundary s.paused_pcm rtp samples s

-- The critical section for one block of PCM.
unfoldable pub enqueue : ℤ → ℤ → ℕ → List ℕ → State → State
enqueue now margin rtp samples s =
    push_block rtp samples
      (splice_import now margin rtp (drain_for rtp samples (evict_for (length samples) s)))
