-- ===== src/Audio/Intake/Fence.antt =====
-- The fence that a flush leaves for the blocks that are still on their way.
use air_play_windows.Base.{
  ltb, Bool-cases, length, All, All-append, is_empty, u32, ℕ, ◌%◌, ◌<◌, ◌≡◌, ◌∙◌, inl, inr, false,
  some, List, [], ◌∷◌, arith,
}
use air_play_windows.Base.Int.{ℤ}
use air_play_windows.Audio.Intake.{
  evict, limit_of, splice_import, fence, push_block, evict_for, drain_for, enqueue,
}
use air_play_windows.Audio.Intake.Bound.{drain_for-queue, enqueue-own}
use air_play_windows.Audio.Queue.{PcmFrame, State, sub_size, add_size, save_tail, flush}
use air_play_windows.Audio.Queue.Fence.{IsFrame, NotBefore, trim_before-NotBefore, flush-NotBefore}
use air_play_windows.Audio.Trim.{trim_before, IsBefore}

evict-NotBefore :
    (b have limit : ℕ) (fs : List PcmFrame) (q : ℕ)
    → NotBefore b fs
    → NotBefore b (evict have limit fs q).0
unfolding evict
evict-NotBefore b have limit [] q h = tt
evict-NotBefore b have limit (f ∷ fs) q h = elim (Bool-cases (ltb limit (add_size q have))) [
  | inl over ↦ rw over (evict-NotBefore b have limit fs (sub_size q (length f.samples)) h.1)
  | inr room ↦ rw room h
]

push_block-NotBefore :
    (b rtp : ℕ) (samples : List ℕ) (s : State)
    → rtp < u32
    → b < u32
    → length samples % 2 ≡ 0
    → s.flush_boundary ≡ some b
    → NotBefore b s.pcm_queue
    → NotBefore b (push_block rtp samples s).pcm_queue
unfolding push_block
push_block-NotBefore b rtp samples s small k even fenced h =
    let t = trim_before rtp samples b in
    elim (Bool-cases (is_empty t.pcm)) [
      | inl gone ↦ simp (fenced, gone) h
      | inr left ↦
          simp (fenced, left)
            (All-append (λ f. ¬ IsBefore f.rtp b) s.pcm_queue _ h
              (trim_before-NotBefore rtp samples b small k even left, tt))
    ]

pub flush-fields :
    (b : ℕ) (at : ℤ) (s : State)
    → s.imported_pause ≡ false
    → ((flush (some b) at s).imported_pause ≡ false)
      × ((flush (some b) at s).flush_boundary ≡ some b)
unfolding flush save_tail
flush-fields b at s own = ground arith

-- A block of PCM with the clock and the margin that the receiver meets when it arrives.
pub record Block : Type 0 where
  pub now : ℤ
  pub margin : ℤ
  pub rtp : ℕ
  pub samples : List ℕ

-- A 32-bit time and stereo samples.
abbrev pub IsBlock : Block → Type 0
IsBlock k = (k.rtp < u32) × (length k.samples % 2 ≡ 0)

abbrev pub enqueue_block : Block → State → State
enqueue_block k s = enqueue k.now k.margin k.rtp k.samples s

abbrev pub enqueue_all : List Block → State → State
enqueue_all [] s = s
enqueue_all (k ∷ ks) s = enqueue_all ks (enqueue_block k s)

-- Each block finds the fence that a flush at `b` has left, so only the last may have kept samples.
abbrev pub FindFence : ℕ → List Block → State → Type 0
FindFence b [] s = Unit
FindFence b (k ∷ ks) s = (s.flush_boundary ≡ some b) × FindFence b ks (enqueue_block k s)

enqueue-imported_pause :
    (k : Block) (s : State) → s.imported_pause ≡ false → (enqueue_block k s).imported_pause ≡ false
unfolding enqueue splice_import push_block
enqueue-imported_pause k s own =
    let t = evict_for (length k.samples) s in
    let u = drain_for k.rtp k.samples t in
    let own' : u.imported_pause ≡ false =
      (drain_for-queue k.rtp k.samples t).1 ∙ unfold evict_for in own in
    elim (Bool-cases (is_empty (fence u.flush_boundary k.rtp k.samples).pcm)) [
      | inl gone ↦ simp (own', gone)
      | inr left ↦ simp (own', left)
    ]

enqueue_all-NotBefore :
    (b : ℕ) (ks : List Block) (s : State)
    → b < u32
    → All IsBlock ks
    → s.imported_pause ≡ false
    → NotBefore b s.pcm_queue
    → FindFence b ks s
    → NotBefore b (enqueue_all ks s).pcm_queue
enqueue_all-NotBefore b [] s small valid own clear found = clear
enqueue_all-NotBefore b (k ∷ ks) s small ((time, even), valid) own clear (fenced, later) =
    let t = evict_for (length k.samples) s in
    let clear' : NotBefore b (enqueue_block k s).pcm_queue =
      rw (enqueue-own k.now k.margin k.rtp k.samples s own) (
        push_block-NotBefore b k.rtp k.samples t time small even (unfold evict_for in fenced) (
          unfold evict_for in
          evict-NotBefore b (length k.samples) (limit_of s) s.pcm_queue s.queued_samples clear)) in
    enqueue_all-NotBefore b ks (enqueue_block k s) small valid (enqueue-imported_pause k s own)
      clear' later

-- After a flush with a boundary, with no imported tail, the queue holds no block that starts before
-- it, and the blocks of stereo PCM that then arrive add none, whatever their RTP times, as long as
-- each finds the fence of the flush still standing.
pub enqueue-flush :
    (b : ℕ) (at : ℤ) (ks : List Block) (s : State)
    → b < u32
    → All IsBlock ks
    → All IsFrame s.pcm_queue
    → s.imported_pause ≡ false
    → FindFence b ks (flush (some b) at s)
    → NotBefore b (flush (some b) at s).pcm_queue
      × NotBefore b (enqueue_all ks (flush (some b) at s)).pcm_queue
enqueue-flush b at ks s small valid frames own found =
    let t = flush (some b) at s in
    let clear = flush-NotBefore b at s small frames in
    (clear, enqueue_all-NotBefore b ks t small valid (flush-fields b at s own).0 clear found)
