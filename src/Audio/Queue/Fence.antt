-- ===== src/Audio/Queue/Fence.antt =====
-- What a flush with a boundary leaves, and what a resume puts back.
use air_play_windows.Base.{
  Bool-cases, length, All, is_empty, u32, add32, ℕ, ◌%◌, ◌<◌, ◌≡◌, refl, inl, inr, true, false,
  Option, some, List, [], ◌∷◌, ◌++◌, arith,
}
use air_play_windows.Base.Int.{ℤ, pos, ◌-ℤ◌, ◌≤ℤ◌}
use air_play_windows.Audio.Queue.{
  PcmFrame, State, sub_size, end_rtp, trim_queue, save_tail, flush, shift_all, splice, pause_shift,
  resume,
}
use air_play_windows.Audio.Trim.{trim_before, IsBefore, trim_before_exact, trim_before-rtp_lt}

-- A block of stereo samples with a 32-bit RTP time.
abbrev pub IsFrame : PcmFrame → Type 0
IsFrame f = (f.rtp < u32) × (length f.samples % 2 ≡ 0)

-- No block starts strictly before `b`.
abbrev pub NotBefore : ℕ → List PcmFrame → Type 0
NotBefore b fs = All (λ f. ¬ IsBefore f.rtp b) fs

nonempty-length : (xs : List ℕ) → is_empty xs ≡ false → 0 < length xs
nonempty-length [] e = cc
nonempty-length (x ∷ xs) e = omega arith

pub trim_before-NotBefore :
    (rtp : ℕ) (pcm : List ℕ) (b : ℕ)
    → rtp < u32
    → b < u32
    → length pcm % 2 ≡ 0
    → is_empty (trim_before rtp pcm b).pcm ≡ false
    → ¬ IsBefore (trim_before rtp pcm b).rtp b
trim_before-NotBefore rtp pcm b h k even some_left =
    let t = trim_before_exact rtp pcm b h k in
    elim t.kept_not_before [
      | inl few ↦ absurd (omega (arith, t.counted, t.whole_frames, nonempty-length _ some_left))
      | inr clear ↦ clear
    ]

pub trim_queue-NotBefore :
    (b : ℕ) (fs : List PcmFrame) (q : ℕ)
    → b < u32
    → All IsFrame fs
    → NotBefore b (trim_queue b fs q).0
unfolding trim_queue
trim_queue-NotBefore b [] q k h = tt
trim_queue-NotBefore b (f ∷ fs) q k ((small, even), hs) =
    let t = trim_before f.rtp f.samples b in
    let later = trim_queue-NotBefore b fs (sub_size q t.removed) k hs in
    elim (Bool-cases (is_empty t.pcm)) [
      | inl gone ↦ rw gone later
      | inr left ↦ rw left (trim_before-NotBefore f.rtp f.samples b small k even left, later)
    ]

pub save_tail-queue :
    (b : Option ℕ) (now : ℤ) (s : State)
    → ((save_tail b now s).queued_samples ≡ s.queued_samples)
      × ((save_tail b now s).pcm_queue ≡ s.pcm_queue)
unfolding save_tail
save_tail-queue b now s = ground arith

pub flush-NotBefore :
    (b : ℕ) (now : ℤ) (s : State)
    → b < u32
    → All IsFrame s.pcm_queue
    → NotBefore b (flush (some b) now s).pcm_queue
unfolding flush
flush-NotBefore b now s k h =
    rw (save_tail-queue (some b) now s).1
      (trim_queue-NotBefore b s.pcm_queue (save_tail (some b) now s).queued_samples k h)

trim_before-IsFrame :
    (rtp : ℕ) (pcm : List ℕ) (b : ℕ)
    → rtp < u32
    → b < u32
    → length pcm % 2 ≡ 0
    → ((trim_before rtp pcm b).rtp < u32) × (length (trim_before rtp pcm b).pcm % 2 ≡ 0)
trim_before-IsFrame rtp pcm b h k even =
    let t = trim_before_exact rtp pcm b h k in
    (trim_before-rtp_lt rtp pcm b h, omega (arith, t.counted, t.whole_frames))

trim_queue-IsFrame :
    (b : ℕ) (fs : List PcmFrame) (q : ℕ)
    → b < u32
    → All IsFrame fs
    → All IsFrame (trim_queue b fs q).0
unfolding trim_queue
trim_queue-IsFrame b [] q k h = tt
trim_queue-IsFrame b (f ∷ fs) q k ((small, even), hs) =
    let t = trim_before f.rtp f.samples b in
    let later = trim_queue-IsFrame b fs (sub_size q t.removed) k hs in
    elim (Bool-cases (is_empty t.pcm)) [
      | inl gone ↦ rw gone later
      | inr left ↦ rw left (trim_before-IsFrame f.rtp f.samples b small k even, later)
    ]

end_rtp-lt : (f : PcmFrame) (fs : List PcmFrame) → end_rtp f fs < u32
unfolding end_rtp
end_rtp-lt f [] = omega arith
end_rtp-lt f (g ∷ gs) = end_rtp-lt g gs

flush-IsFrame :
    (b : ℕ) (now : ℤ) (s : State)
    → b < u32
    → All IsFrame s.pcm_queue
    → All IsFrame (flush (some b) now s).pcm_queue
unfolding flush
flush-IsFrame b now s k h =
    rw (save_tail-queue (some b) now s).1
      (trim_queue-IsFrame b s.pcm_queue (save_tail (some b) now s).queued_samples k h)

-- What a flush with a boundary saves of a queue that is not empty.
record SavedBy (s : State) (f : PcmFrame) (fs : List PcmFrame) (at : ℤ) (t : State) : Type 0 where
  tail : t.paused_pcm ≡ f ∷ fs
  since : t.paused_at_ns ≡ at
  own : t.imported_pause ≡ false
  sync : t.synchronize ≡ true
  rate : t.sample_rate ≡ s.sample_rate

flush_saves :
    (b : ℕ) (at : ℤ) (f : PcmFrame) (fs : List PcmFrame) (s : State)
    → s.pcm_queue ≡ f ∷ fs
    → s.imported_pause ≡ false
    → s.synchronize ≡ true
    → s.preserve_paused_audio ≡ true
    → SavedBy s f fs at (flush (some b) at s)
unfolding flush save_tail
flush_saves b at f fs s q own sync keep = record {
  tail = simp (own, sync, keep, q);
  since = simp (own, sync, keep, q);
  own = simp (own, sync, keep, q);
  sync = simp (own, sync, keep, q);
  rate = simp (own, sync, keep, q);
}

-- The blocks of `s`'s queue, moved by `k` ticks, stand in front of those of `t`, and these do not
-- start before the end of the last one moved.
pub record PutBack (f : PcmFrame) (fs : List PcmFrame) (k : ℕ) (t : State) : Type 0 where
  pub rest : List PcmFrame
  pub in_front : t.pcm_queue ≡ shift_all k (f ∷ fs) ++ rest
  pub behind :
      NotBefore
        (end_rtp (record f { rtp = add32 f.rtp k; local_target_ns = pos 0 }) (shift_all k fs))
        rest

splice-PutBack :
    (k : ℕ) (f : PcmFrame) (fs : List PcmFrame) (s : State)
    → All IsFrame s.pcm_queue
    → PutBack f fs k (splice k f fs s)
unfolding splice
splice-PutBack k f fs s h =
    let last =
      end_rtp (record f { rtp = add32 f.rtp k; local_target_ns = pos 0 }) (shift_all k fs) in
    record {
      rest = (trim_queue last s.pcm_queue 0).0;
      in_front = refl;
      behind = trim_queue-NotBefore last s.pcm_queue 0 (end_rtp-lt _ _) h;
    }

resume_splices :
    (later at : ℤ) (f : PcmFrame) (fs : List PcmFrame) (s t : State)
    → SavedBy s f fs at t
    → pos 200_000_000 ≤ℤ (later -ℤ at)
    → (later -ℤ at) ≤ℤ pos 120_000_000_000
    → resume later t ≡ splice (pause_shift (later -ℤ at) s.sample_rate) f fs t
unfolding resume
resume_splices later at f fs s t saved lo hi =
    simp (saved.own, saved.tail, saved.since, saved.sync, saved.rate) (ground arith)

-- A pause of 0.2 to 120 seconds in synchronized playback loses nothing that was queued: a flush
-- with a boundary at time `at`, on a queue `f ∷ fs` with no imported tail, and a resume at `later`
-- put back every block, in order and in front, all moved by the ticks of the pause, and the blocks
-- behind them do not start before their end.
pub resume-flush :
    (b : ℕ) (at later : ℤ) (f : PcmFrame) (fs : List PcmFrame) (s : State)
    → b < u32
    → All IsFrame s.pcm_queue
    → s.pcm_queue ≡ f ∷ fs
    → s.imported_pause ≡ false
    → s.synchronize ≡ true
    → s.preserve_paused_audio ≡ true
    → pos 200_000_000 ≤ℤ (later -ℤ at)
    → (later -ℤ at) ≤ℤ pos 120_000_000_000
    → PutBack f fs (pause_shift (later -ℤ at) s.sample_rate) (resume later (flush (some b) at s))
resume-flush b at later f fs s k h q own sync keep lo hi =
    rw
      (resume_splices later at f fs s (flush (some b) at s)
        (flush_saves b at f fs s q own sync keep) lo hi)
      (splice-PutBack (pause_shift (later -ℤ at) s.sample_rate) f fs (flush (some b) at s)
        (flush-IsFrame b at s k h))
