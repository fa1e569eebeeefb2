-- ===== src/Audio/Intake/Bound.antt =====
-- The queue is kept within five seconds of sound.
use air_play_windows.Base.{
  if◌then◌else◌, Bool-cases, length, is_empty, sub32, ℕ, ◌+◌, ◌*◌, ◌/◌, ◌≤◌, ◌<◌, max, ◌≡◌, refl,
  ap, ◌∙◌, inl, inr, false, Option, none, some, List, [], ◌∷◌, arith,
}
use air_play_windows.Base.Int.{ℤ, pos, ◌+ℤ◌, ◌-ℤ◌, ◌*ℤ◌, ltb_ℤ, quot, signed32}
use air_play_windows.Audio.Intake.{
  evict, limit_of, extend_tail, drain_tail, count_frames, ns_of, retarget, max_ℤ, restore_tail,
  restore_saved, splice_import, fence, push_block, evict_for, drain_for, enqueue,
}
use air_play_windows.Audio.Queue.{PcmFrame, State, size_mod, sub_size, end_rtp}
use air_play_windows.Audio.Queue.Count.{total, total-append}
use air_play_windows.Audio.Trim.{trim_before-counted}

evict-bound :
    (have limit : ℕ) (fs : List PcmFrame) (q : ℕ)
    → q ≡ total fs
    → q + have < size_mod
    → ((evict have limit fs q).1 ≡ total (evict have limit fs q).0)
      × (total (evict have limit fs q).0 + have ≤ max limit have)
unfolding evict total
evict-bound have limit [] q e h = omega arith
evict-bound have limit (f ∷ fs) q e h =
    ground (arith, evict-bound have limit fs (sub_size q (length f.samples)))

drain_tail-queue :
    (b : Option ℕ) (paused : List PcmFrame) (rtp : ℕ) (samples : List ℕ) (s : State)
    → ((drain_tail b paused rtp samples s).pcm_queue ≡ s.pcm_queue)
      × ((drain_tail b paused rtp samples s).imported_pause ≡ s.imported_pause)
      × ((drain_tail b paused rtp samples s).flush_boundary ≡ s.flush_boundary)
unfolding extend_tail
drain_tail-queue none paused rtp samples s = (refl, refl, refl)
drain_tail-queue (some b) [] rtp samples s = (refl, refl, refl)
drain_tail-queue (some b) (f ∷ fs) rtp samples s = ground arith

pub drain_for-queue :
    (rtp : ℕ) (samples : List ℕ) (s : State)
    → ((drain_for rtp samples s).pcm_queue ≡ s.pcm_queue)
      × ((drain_for rtp samples s).imported_pause ≡ s.imported_pause)
      × ((drain_for rtp samples s).flush_boundary ≡ s.flush_boundary)
unfolding drain_for
drain_for-queue rtp samples s =
    ground (arith, drain_tail-queue s.flush_boundary s.paused_pcm rtp samples s)

push_block-queue :
    (rtp : ℕ) (samples : List ℕ) (s t : State)
    → s.pcm_queue ≡ t.pcm_queue
    → s.flush_boundary ≡ t.flush_boundary
    → (push_block rtp samples s).pcm_queue ≡ (push_block rtp samples t).pcm_queue
unfolding push_block
push_block-queue rtp samples s t q b =
    elim (Bool-cases (is_empty (fence t.flush_boundary rtp samples).pcm)) [
      | inl gone ↦ simp (b, gone, q)
      | inr left ↦ simp (b, left, q)
    ]

-- With no imported tail, a block meets only the eviction and the fence.
pub enqueue-own :
    (now margin : ℤ) (rtp : ℕ) (samples : List ℕ) (s : State)
    → s.imported_pause ≡ false
    → (enqueue now margin rtp samples s).pcm_queue
      ≡ (push_block rtp samples (evict_for (length samples) s)).pcm_queue
unfolding enqueue splice_import
enqueue-own now margin rtp samples s own =
    let t = evict_for (length samples) s in
    let (queue, same, boundary) = drain_for-queue rtp samples t in
    let own' : (drain_for rtp samples t).imported_pause ≡ false = same ∙ unfold evict_for in own in
    simp own' (push_block-queue rtp samples (drain_for rtp samples t) t queue boundary)

fence-le :
    (b : Option ℕ) (rtp : ℕ) (samples : List ℕ) → length (fence b rtp samples).pcm ≤ length samples
fence-le none rtp samples = omega arith
fence-le (some b) rtp samples = omega (arith, trim_before-counted rtp samples b)

push_block-total :
    (rtp : ℕ) (samples : List ℕ) (s : State)
    → total (push_block rtp samples s).pcm_queue ≤ total s.pcm_queue + length samples
unfolding push_block total
push_block-total rtp samples s =
    let t = fence s.flush_boundary rtp samples in
    let added : PcmFrame = record { rtp = t.rtp; samples = t.pcm; local_target_ns = pos 0 } in
    ground (arith, fence-le s.flush_boundary rtp samples, total-append s.pcm_queue (added ∷ []))

pub total-retarget :
    (k : ℕ) (t : ℤ) (rate : ℕ) (fs : List PcmFrame) → total (retarget k t rate fs) ≡ total fs
unfolding retarget total
total-retarget k t rate [] = refl
total-retarget k t rate (f ∷ fs) =
    omega (arith, total-retarget k (t +ℤ ns_of (length f.samples / 2) rate) rate fs)

-- The saved blocks that the next packet puts back, which a receiver has from its predecessor.
abbrev pub imported_tail : State → List PcmFrame
imported_tail s = if s.imported_pause then s.paused_pcm else []

restore_saved-total :
    (fs : List PcmFrame) (now margin : ℤ) (rtp : ℕ) (s : State)
    → total (restore_saved fs now margin rtp s).pcm_queue ≤ total s.pcm_queue + total fs
unfolding restore_tail
restore_saved-total [] now margin rtp s = omega arith
restore_saved-total (f ∷ fs) now margin rtp s =
    elim (Bool-cases (ltb_ℤ (now -ℤ s.paused_at_ns) (pos 120_000_000_000))) [
      | inl soon ↦
          let shift = sub32 rtp (end_rtp f fs) in
          let delta = signed32 (sub32 rtp s.first_packet_rtp) in
          let fresh =
            s.first_packet_ns
            +ℤ quot ((delta +ℤ pos s.source_lead_frames) *ℤ pos 1_000_000_000) s.sample_rate in
          let tail = ns_of (count_frames (f ∷ fs)) s.sample_rate in
          let target = max_ℤ now ((fresh -ℤ tail) +ℤ margin) in
          let saved = retarget shift target s.sample_rate (f ∷ fs) in
          rw soon (
            omega (
              arith,
              total-retarget shift target s.sample_rate (f ∷ fs),
              total-append s.pcm_queue saved,
            ))
      | inr gone ↦ rw gone (omega arith)
    ]

splice_import-total :
    (now margin : ℤ) (rtp : ℕ) (s : State)
    → total (splice_import now margin rtp s).pcm_queue ≤ total s.pcm_queue + total (imported_tail s)
unfolding splice_import
splice_import-total now margin rtp s = elim (Bool-cases s.imported_pause) [
  | inl imported ↦ simp imported (restore_saved-total s.paused_pcm now margin rtp s)
  | inr own ↦ simp own (omega arith)
]

drain_for-imported_tail :
    (rtp : ℕ) (samples : List ℕ) (s : State)
    → imported_tail (drain_for rtp samples s) ≡ imported_tail s
drain_for-imported_tail rtp samples s = elim (Bool-cases s.imported_pause) [
  | inl imported ↦ unfold drain_for in simp imported refl
  | inr own ↦ simp ((drain_for-queue rtp samples s).1 ∙ own, own) refl
]

-- With an exact count, and fewer than 2 ^ 64 samples in the queue and the block, a block of any size
-- leaves in the queue at most five seconds of sound, or as much as the block where that is longer,
-- and besides it the saved blocks that a receiver has from its predecessor and puts back with its
-- first block.
pub enqueue-bound :
    (now margin : ℤ) (rtp : ℕ) (samples : List ℕ) (s : State)
    → s.queued_samples ≡ total s.pcm_queue
    → total s.pcm_queue + length samples < size_mod
    → total (enqueue now margin rtp samples s).pcm_queue
      ≤ max (s.sample_rate * 2 * 5) (length samples) + total (imported_tail s)
unfolding enqueue evict_for
enqueue-bound now margin rtp samples s e h =
    let t = evict_for (length samples) s in
    let u = drain_for rtp samples t in
    omega (
      arith,
      push_block-total rtp samples (splice_import now margin rtp u),
      splice_import-total now margin rtp u,
      ap total (drain_for-queue rtp samples t).0,
      ap total (drain_for-imported_tail rtp samples t),
      evict-bound (length samples) (limit_of s) s.pcm_queue s.queued_samples e (omega arith),
    )
