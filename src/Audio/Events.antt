-- ===== src/Audio/Events.antt =====
-- The queue under any event of the receiver: `queued_samples_` stays the number of samples queued.
use air_play_windows.Audio.Intake.Bound.{total-retarget}
use air_play_windows.Audio.Playout.{
  Reading, target_of, schedule, schedule_target, play_round, front_round, playout, end_playout,
}
use air_play_windows.Audio.Trim.{trim_before, trim_before-counted}
use air_play_windows.Base.{
  ltb, if◌then◌else◌, Bool-cases, length, take, length-take, sub32, ℕ, ◌+◌, ◌*◌, ◌/◌, ◌≤◌, ◌<◌, ◌≡◌,
  refl, sym, ap, ◌∙◌, inl, inr, Bool, false, Option, none, some, List, [], ◌∷◌, arith,
}
use air_play_windows.Base.Int.{ℤ, pos, ◌+ℤ◌, ◌-ℤ◌, ◌*ℤ◌, ltb_ℤ, quot, signed32}
use air_play_windows.Audio.Intake.{
  evict, limit_of, extend_tail, drain_tail, count_frames, ns_of, retarget, max_ℤ, restore_tail,
  restore_saved, splice_import, fence, push_block, evict_for, drain_for, enqueue,
}
use air_play_windows.Audio.Queue.{
  PcmFrame, State, size_mod, sub_size, end_rtp, flush, resume, discard_pause, set_synchronized,
}
use air_play_windows.Audio.Queue.Count.{
  total, total-append, count_samples-total, flush-exact, resume-exact, set_synchronized-exact,
}

evict-total :
    (have limit : ℕ) (fs : List PcmFrame) (q : ℕ)
    → q ≡ total fs
    → q < size_mod
    → ((evict have limit fs q).1 ≡ total (evict have limit fs q).0)
      × (total (evict have limit fs q).0 ≤ total fs)
unfolding evict total
evict-total have limit [] q e h = omega arith
evict-total have limit (f ∷ fs) q e h =
    ground (arith, evict-total have limit fs (sub_size q (length f.samples)))

evict_for-exact :
    (have : ℕ) (s : State)
    → s.queued_samples ≡ total s.pcm_queue
    → s.queued_samples < size_mod
    → ((evict_for have s).queued_samples ≡ total (evict_for have s).pcm_queue)
      × (total (evict_for have s).pcm_queue ≤ total s.pcm_queue)
unfolding evict_for
evict_for-exact have s e h = evict-total have (limit_of s) s.pcm_queue s.queued_samples e h

extend_tail-total :
    (b : ℕ) (paused : List PcmFrame) (last rtp : ℕ) (samples : List ℕ) (s : State)
    → s.paused_pcm ≡ paused
    → ((extend_tail b paused last rtp samples s).pcm_queue ≡ s.pcm_queue)
      × ((extend_tail b paused last rtp samples s).queued_samples ≡ s.queued_samples)
      × (total (extend_tail b paused last rtp samples s).paused_pcm
          ≤ total s.paused_pcm + length samples)
unfolding extend_tail total
extend_tail-total b paused last rtp samples s e =
    let t = trim_before rtp samples last in
    let remaining = sub32 b t.rtp in
    let kept = if ltb remaining (length t.pcm / 2) then take (remaining * 2) t.pcm else t.pcm in
    let block : PcmFrame = record { rtp = t.rtp; samples = kept; local_target_ns = pos 0 } in
    ground (
      arith,
      trim_before-counted rtp samples last,
      total-append paused (block ∷ []),
      length-take (remaining * 2) t.pcm,
      ap total e,
    )

drain_tail-total :
    (b : Option ℕ) (paused : List PcmFrame) (rtp : ℕ) (samples : List ℕ) (s : State)
    → s.paused_pcm ≡ paused
    → ((drain_tail b paused rtp samples s).pcm_queue ≡ s.pcm_queue)
      × ((drain_tail b paused rtp samples s).queued_samples ≡ s.queued_samples)
      × (total (drain_tail b paused rtp samples s).paused_pcm ≤ total s.paused_pcm + length samples)
drain_tail-total none paused rtp samples s e = (refl, refl, omega arith)
drain_tail-total (some b) [] rtp samples s e = (refl, refl, omega arith)
drain_tail-total (some b) (f ∷ fs) rtp samples s e =
    extend_tail-total b (f ∷ fs) (end_rtp f fs) rtp samples s e

drain_for-total :
    (rtp : ℕ) (samples : List ℕ) (s : State)
    → ((drain_for rtp samples s).pcm_queue ≡ s.pcm_queue)
      × ((drain_for rtp samples s).queued_samples ≡ s.queued_samples)
      × (total (drain_for rtp samples s).paused_pcm ≤ total s.paused_pcm + length samples)
unfolding drain_for
drain_for-total rtp samples s = elim (Bool-cases s.imported_pause) [
  | inl imported ↦ simp imported (refl, refl, omega arith)
  | inr own ↦ simp own (drain_tail-total s.flush_boundary s.paused_pcm rtp samples s refl)
]

restore_tail-exact :
    (now margin : ℤ) (rtp : ℕ) (f : PcmFrame) (fs : List PcmFrame) (s : State)
    → s.queued_samples ≡ total s.pcm_queue
    → total s.pcm_queue + total (f ∷ fs) < size_mod
    → ((restore_tail now margin rtp f fs s).queued_samples
        ≡ total (restore_tail now margin rtp f fs s).pcm_queue)
      × (total (restore_tail now margin rtp f fs s).pcm_queue ≡ total s.pcm_queue + total (f ∷ fs))
unfolding restore_tail
restore_tail-exact now margin rtp f fs s e h =
    let shift = sub32 rtp (end_rtp f fs) in
    let delta = signed32 (sub32 rtp s.first_packet_rtp) in
    let fresh =
      s.first_packet_ns
      +ℤ quot ((delta +ℤ pos s.source_lead_frames) *ℤ pos 1_000_000_000) s.sample_rate in
    let tail = ns_of (count_frames (f ∷ fs)) s.sample_rate in
    let target = max_ℤ now ((fresh -ℤ tail) +ℤ margin) in
    let saved = retarget shift target s.sample_rate (f ∷ fs) in
    let same = total-retarget shift target s.sample_rate (f ∷ fs) in
    let joined = total-append s.pcm_queue saved in
    (
      omega (arith, count_samples-total saved s.queued_samples (omega arith), joined, same),
      omega (arith, joined, same),
    )

restore_saved-exact :
    (fs : List PcmFrame) (now margin : ℤ) (rtp : ℕ) (s : State)
    → s.queued_samples ≡ total s.pcm_queue
    → total s.pcm_queue + total fs < size_mod
    → ((restore_saved fs now margin rtp s).queued_samples
        ≡ total (restore_saved fs now margin rtp s).pcm_queue)
      × (total (restore_saved fs now margin rtp s).pcm_queue ≤ total s.pcm_queue + total fs)
restore_saved-exact [] now margin rtp s e h = (e, omega arith)
restore_saved-exact (f ∷ fs) now margin rtp s e h =
    elim (Bool-cases (ltb_ℤ (now -ℤ s.paused_at_ns) (pos 120_000_000_000))) [
      | inl soon ↦
          let (exact, size) = restore_tail-exact now margin rtp f fs s e h in
          rw soon (exact, omega (arith, size))
      | inr gone ↦ rw gone (e, omega arith)
    ]

splice_import-exact :
    (now margin : ℤ) (rtp : ℕ) (s : State)
    → s.queued_samples ≡ total s.pcm_queue
    → total s.pcm_queue + total s.paused_pcm < size_mod
    → ((splice_import now margin rtp s).queued_samples
        ≡ total (splice_import now margin rtp s).pcm_queue)
      × (total (splice_import now margin rtp s).pcm_queue ≤ total s.pcm_queue + total s.paused_pcm)
unfolding splice_import
splice_import-exact now margin rtp s e h = elim (Bool-cases s.imported_pause) [
  | inl imported ↦ simp imported (restore_saved-exact s.paused_pcm now margin rtp s e h)
  | inr own ↦ simp own (e, omega arith)
]

fence-counted :
    (b : Option ℕ) (rtp : ℕ) (samples : List ℕ) → length (fence b rtp samples).pcm ≤ length samples
fence-counted none rtp samples = omega arith
fence-counted (some b) rtp samples = omega (arith, trim_before-counted rtp samples b)

push_block-exact :
    (rtp : ℕ) (samples : List ℕ) (s : State)
    → s.queued_samples ≡ total s.pcm_queue
    → total s.pcm_queue + length samples < size_mod
    → (push_block rtp samples s).queued_samples ≡ total (push_block rtp samples s).pcm_queue
unfolding push_block total
push_block-exact rtp samples s e h =
    let t = fence s.flush_boundary rtp samples in
    let block : PcmFrame = record { rtp = t.rtp; samples = t.pcm; local_target_ns = pos 0 } in
    ground
      (arith, fence-counted s.flush_boundary rtp samples, total-append s.pcm_queue (block ∷ []))

enqueue-exact :
    (now margin : ℤ) (rtp : ℕ) (samples : List ℕ) (s : State)
    → s.queued_samples ≡ total s.pcm_queue
    → total s.pcm_queue + total s.paused_pcm + 2 * length samples < size_mod
    → (enqueue now margin rtp samples s).queued_samples
      ≡ total (enqueue now margin rtp samples s).pcm_queue
unfolding enqueue
enqueue-exact now margin rtp samples s e h =
    let s1 = evict_for (length samples) s in
    let s2 = drain_for rtp samples s1 in
    let (e1, le1) = evict_for-exact (length samples) s e (omega arith) in
    let (q2, n2, le2) = drain_for-total rtp samples s1 in
    let paused1 : s1.paused_pcm ≡ s.paused_pcm = unfold evict_for in refl in
    let bound : total s2.pcm_queue + total s2.paused_pcm < size_mod =
      omega (arith, ap total paused1, ap total q2, le1, le2) in
    let (e3, le3) = splice_import-exact now margin rtp s2 (n2 ∙ e1 ∙ sym (ap total q2)) bound in
    push_block-exact rtp samples (splice_import now margin rtp s2) e3
      (omega (arith, ap total paused1, ap total q2, le1, le2, le3))

-- What the receiver may be told, with the readings that each operation makes.
pub data Event : Type 0 where
  flushed : Option ℕ → ℤ → Event
  resumed : ℤ → Event
  pause_discarded : Event
  synchronized : Bool → ℤ → Event
  block : ℤ → ℤ → ℕ → List ℕ → Event
  round : Reading → Event
  ended : Event

unfoldable pub apply : Event → State → State
apply (flushed b now) s = flush b now s
apply (resumed now) s = resume now s
apply pause_discarded s = discard_pause s
apply (synchronized on now) s = set_synchronized on now s
apply (block now margin rtp samples) s = enqueue now margin rtp samples s
apply (round r) s = (playout r s).0
apply ended s = end_playout s

-- The samples that an event brings.
abbrev pub arriving : Event → ℕ
arriving (block now margin rtp samples) = length samples
arriving _ = 0

drop_front-exact :
    (f : PcmFrame) (fs : List PcmFrame) (q : ℕ)
    → q ≡ total (f ∷ fs)
    → q < size_mod
    → sub_size q (length f.samples) ≡ total fs
unfolding total
drop_front-exact f fs q e h = omega arith

schedule_target-exact :
    (t : Option ℤ) (r : Reading) (f : PcmFrame) (fs : List PcmFrame) (s : State)
    → s.pcm_queue ≡ f ∷ fs
    → s.queued_samples ≡ total s.pcm_queue
    → s.queued_samples < size_mod
    → ((schedule_target t r f fs s).0.queued_samples
        ≡ total (schedule_target t r f fs s).0.pcm_queue)
unfolding schedule
schedule_target-exact none r f fs s q e h =
    drop_front-exact f fs s.queued_samples (e ∙ ap total q) h
schedule_target-exact (some t) r f fs s q e h =
    ground (arith, drop_front-exact f fs s.queued_samples (e ∙ ap total q) h)

front_round-exact :
    (queue : List PcmFrame) (r : Reading) (s : State)
    → s.pcm_queue ≡ queue
    → s.queued_samples ≡ total s.pcm_queue
    → s.queued_samples < size_mod
    → (front_round queue r s).0.queued_samples ≡ total (front_round queue r s).0.pcm_queue
unfolding play_round
front_round-exact [] r s q e h = e
front_round-exact (f ∷ fs) r s q e h =
    ground (arith, schedule_target-exact (target_of s r f) r f fs s q e h)

-- Whatever the receiver is told, `queued_samples_` is afterwards the number of samples in the
-- queue, if it was so before and memory holds fewer than 2 ^ 64 samples.
pub apply-exact :
    (e : Event) (s : State)
    → s.queued_samples ≡ total s.pcm_queue
    → total s.pcm_queue + total s.paused_pcm + 2 * arriving e < size_mod
    → (apply e s).queued_samples ≡ total (apply e s).pcm_queue
unfolding apply
apply-exact (flushed b now) s q h = flush-exact b now s (record { exact = q; fits = omega arith })
apply-exact (resumed now) s q h = resume-exact now s (record { exact = q; fits = omega arith })
apply-exact pause_discarded s q h = unfold discard_pause in q
apply-exact (synchronized on now) s q h =
    set_synchronized-exact on now s (record { exact = q; fits = omega arith })
apply-exact (block now margin rtp samples) s q h = enqueue-exact now margin rtp samples s q h
apply-exact (round r) s q h =
    unfold playout in
    front_round-exact s.pcm_queue r (record s { clear_output = false }) refl q (omega arith)
apply-exact ended s q h = unfold end_playout total in refl
