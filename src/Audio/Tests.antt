-- ===== src/Audio/Tests.antt =====
-- Runs of the queue, and its theorems at concrete states.
use air_play_windows.Audio.Network.{Network}
use air_play_windows.Audio.Network.Dedup.{IsAudio}
use air_play_windows.Audio.Network.Repeat.{
  Arrival, receive, receive_all, both, receive-both_forgets_nothing,
}
use air_play_windows.Base.{
  ◌==◌, Bytes, ℕ, ◌+◌, ◌*◌, ◌≤◌, max, ◌≡◌, refl, true, false, none, some, List, [], ◌∷◌, ◌++◌,
  arith,
}
use air_play_windows.Base.Int.{pos, ◌-ℤ◌}
use air_play_windows.Audio.Events.{Event, block, apply, apply-exact}
use air_play_windows.Audio.Intake.{
  evict, extend_tail, splice_import, push_block, evict_for, drain_for, enqueue,
}
use air_play_windows.Audio.Intake.Bound.{imported_tail, enqueue-bound}
use air_play_windows.Audio.Intake.Fence.{Block, enqueue_all, FindFence, enqueue-flush}
use air_play_windows.Audio.Playout.{Reading, target_of, playout}
use air_play_windows.Audio.Playout.Timing.{Justified, playout_due}
use air_play_windows.Audio.Queue.{
  PcmFrame, State, end_rtp, trim_queue, save_tail, flush, pause_shift, resume,
}
use air_play_windows.Audio.Queue.Count.{total}
use air_play_windows.Audio.Queue.Fence.{NotBefore, PutBack, resume-flush}
use air_play_windows.Audio.Trim.{trim_before}

abbrev block_at : ℕ → ℕ → PcmFrame
block_at rtp a = record { rtp = rtp; samples = a ∷ a ∷ a ∷ a ∷ []; local_target_ns = pos 0 }

-- Two blocks of two frames each, the second across the wrap of the RTP clock.
abbrev playing : State
playing = record {
  sample_rate = 44100;
  preserve_paused_audio = true;
  has_ntp = true;
  synchronize = true;
  pcm_queue = block_at 0xffff_fffd 7 ∷ block_at 0xffff_ffff 8 ∷ [];
  queued_samples = 8;
  sync_rtp = 0xffff_fff0;
  sync_ntp = 1;
  have_anchor = true;
  clear_output = false;
  flush_boundary = none;
  paused_pcm = [];
  paused_at_ns = pos 0;
  imported_pause = false;
  source_lead_frames = 0;
  first_packet_rtp = 0xffff_fff0;
  first_packet_ns = pos 0;
}

abbrev reading : Reading
reading = record {
  now = pos 1_000_000;
  pending = pos 0;
  anchor_time = some (pos 2_000_000);
  ntp_running = true;
  in_grace = false;
}

flush_keeps_suffix :
    (flush (some 0) (pos 5) playing).pcm_queue
    ≡ record { rtp = 0; samples = 8 ∷ 8 ∷ []; local_target_ns = pos 0 } ∷ []
unfolding flush save_tail trim_queue trim_before
flush_keeps_suffix = refl

abbrev arrival : Event
arrival = block (pos 9) (pos 0) 1 (3 ∷ 3 ∷ [])

apply-exact_example :
    (apply arrival playing).queued_samples ≡ total (apply arrival playing).pcm_queue
apply-exact_example =
    apply-exact arrival playing (unfold total in refl) (unfold total in omega arith)

abbrev imported : State
imported = record playing { imported_pause = true; paused_pcm = block_at 5 9 ∷ [] }

enqueue-bound_example :
    total (enqueue (pos 9) (pos 0) 1 (3 ∷ 3 ∷ []) imported).pcm_queue
    ≤ max (44100 * 2 * 5) 2 + total (imported_tail imported)
enqueue-bound_example =
    enqueue-bound (pos 9) (pos 0) 1 (3 ∷ 3 ∷ []) imported (unfold total in refl)
      (unfold total in omega arith)

-- The first is cut off whole, the second in part.
abbrev arriving : List Block
arriving =
    record { now = pos 8; margin = pos 0; rtp = 0xffff_fffd; samples = 3 ∷ 3 ∷ 4 ∷ 4 ∷ [] }
    ∷ (record { now = pos 9; margin = pos 0; rtp = 0xffff_ffff; samples = 5 ∷ 5 ∷ 6 ∷ 6 ∷ [] } ∷ [])

arriving-FindFence : FindFence 0 arriving (flush (some 0) (pos 5) playing)
unfolding flush save_tail trim_queue enqueue splice_import push_block drain_for evict_for evict
    extend_tail trim_before end_rtp
arriving-FindFence = (refl, (refl, tt))

enqueue-flush_example :
    NotBefore 0 (flush (some 0) (pos 5) playing).pcm_queue
    × NotBefore 0 (enqueue_all arriving (flush (some 0) (pos 5) playing)).pcm_queue
enqueue-flush_example =
    enqueue-flush 0 (pos 5) arriving playing (omega arith)
      ((omega arith, refl), ((omega arith, refl), tt)) (omega arith) refl arriving-FindFence

resume-flush_example :
    PutBack
      (block_at 0xffff_fffd 7)
      (block_at 0xffff_ffff 8 ∷ [])
      (pause_shift (pos 1_000_000_000 -ℤ pos 0) 44100)
      (resume (pos 1_000_000_000) (flush (some 0) (pos 0) playing))
unfolding ◌-ℤ◌
resume-flush_example =
    resume-flush 0 (pos 0) (pos 1_000_000_000) (block_at 0xffff_fffd 7)
      (block_at 0xffff_ffff 8 ∷ []) playing (omega arith) (omega arith) refl refl refl refl
      (omega arith) (omega arith)

playout_due_example :
    Justified
      (target_of playing reading (block_at 0xffff_fffd 7))
      playing
      reading
      (block_at 0xffff_fffd 7)
      (block_at 0xffff_ffff 8 ∷ [])
      (playout reading playing)
playout_due_example =
    playout_due reading (block_at 0xffff_fffd 7) (block_at 0xffff_ffff 8 ∷ []) playing refl

abbrev silence : Bytes
silence = 0 ∷ 0 ∷ 0 ∷ 0 ∷ 0 ∷ 0 ∷ 0 ∷ 0 ∷ 0 ∷ 0 ∷ []

abbrev fifty : Bytes
fifty = silence ++ silence ++ silence ++ silence ++ silence

-- A datagram with the sequence number 5.
abbrev datagram : Bytes
datagram = 0x80 ∷ 0x60 ∷ 0 ∷ 5 ∷ 0 ∷ 0 ∷ 1 ∷ 0 ∷ 0 ∷ 0 ∷ 0 ∷ 0 ∷ fifty ++ fifty

abbrev datagram-IsAudio : IsAudio datagram
datagram-IsAudio = (omega arith, omega arith)

abbrev at : ℕ → Arrival
at t = (pos t, (false, datagram))

abbrev listening : Network
listening = record {
  seen = λ q. q == 5;
  pkts = 2;
  total_bytes = 0;
  dedup_dropped = 0;
  sync_packets = 0;
  audio_ever_seen = true;
  last_packet = pos 0;
  have_first_packet = true;
}

receive-both_forgets_nothing_example :
    let (s', w') = receive_all (λ x. x) (both ((at 10, at 20) ∷ [])) playing listening in
    (receive (λ x. x) (at 30) s' w').frame ≡ none
receive-both_forgets_nothing_example =
    receive-both_forgets_nothing (λ x. x) (at 30) ((at 10, at 20) ∷ []) playing listening refl refl
      ((datagram-IsAudio, datagram-IsAudio, refl), tt) datagram-IsAudio
