-- ===== src/Audio/Queue/Count.antt =====
-- `queued_samples_` is the number of samples in the queue, through every operation.
use air_play_windows.Audio.Queue.Fence.{save_tail-queue}
use air_play_windows.Base.Int.{ℤ, pos, ◌-ℤ◌, ltb_ℤ}
use air_play_windows.Audio.Trim.{trim_before, trim_before-counted}
use air_play_windows.Base.{
  Bool-cases, length, is_empty, add32, ℕ, ◌+◌, ◌≤◌, ◌<◌, ◌≡◌, refl, inl, inr, Bool, true, not, ◌&&◌,
  ◌||◌, Option, none, some, List, [], ◌∷◌, ◌++◌, arith,
}
use air_play_windows.Audio.Queue.{
  PcmFrame, State, size_mod, sub_size, add_size, end_rtp, trim_queue, flush, shift_all,
  count_samples, splice, pause_shift, resume_saved, resume, xor, set_synchronized,
}

-- The samples that the blocks hold.
unfoldable pub total : List PcmFrame → ℕ
total [] = 0
total (f ∷ fs) = length f.samples + total fs

-- Memory holds fewer than 2 ^ 64 samples, saved and queued.
pub record IsCounted (s : State) : Type 0 where
  pub exact : s.queued_samples ≡ total s.pcm_queue
  pub fits : total s.pcm_queue + total s.paused_pcm < size_mod

pub total-append : (fs gs : List PcmFrame) → total (fs ++ gs) ≡ total fs + total gs
unfolding total
total-append [] gs = omega arith
total-append (f ∷ fs) gs = omega (arith, total-append fs gs)

pub total-shift_all : (k : ℕ) (fs : List PcmFrame) → total (shift_all k fs) ≡ total fs
unfolding total shift_all
total-shift_all k [] = refl
total-shift_all k (f ∷ fs) = omega (arith, total-shift_all k fs)

pub count_samples-total :
    (fs : List PcmFrame) (n : ℕ) → n + total fs < size_mod → count_samples fs n ≡ n + total fs
unfolding total count_samples
count_samples-total [] n h = omega arith
count_samples-total (f ∷ fs) n h =
    ground (arith, count_samples-total fs (add_size n (length f.samples)))

is_empty-length {ℓ} : {A : Type ℓ} (xs : List A) → is_empty xs ≡ true → length xs ≡ 0
is_empty-length [] h = refl
is_empty-length (x ∷ xs) h = cc

-- `extra` counts the samples of the blocks in front, which stay.
pub trim_queue-total :
    (b : ℕ) (fs : List PcmFrame) (q extra : ℕ)
    → q ≡ extra + total fs
    → q < size_mod
    → ((trim_queue b fs q).1 ≡ extra + total (trim_queue b fs q).0)
      × (total (trim_queue b fs q).0 ≤ total fs)
unfolding total trim_queue
trim_queue-total b [] q extra e h = omega arith
trim_queue-total b (f ∷ fs) q extra e h =
    let t = trim_before f.rtp f.samples b in
    let cut = trim_before-counted f.rtp f.samples b in
    let (counted, less) =
      trim_queue-total b fs (sub_size q t.removed) (extra + length t.pcm) (omega (arith, cut))
        (omega arith) in
    elim (Bool-cases (is_empty t.pcm)) [
      | inl none_left ↦
          rw none_left
            (omega (arith, counted, is_empty-length t.pcm none_left), omega (arith, less))
      | inr some_left ↦ rw some_left (omega (arith, counted), omega (arith, less, cut))
    ]

pub flush-exact :
    (b : Option ℕ) (now : ℤ) (s : State)
    → IsCounted s
    → (flush b now s).queued_samples ≡ total (flush b now s).pcm_queue
unfolding flush
flush-exact none now s h = unfold total in refl
flush-exact (some b) now s h =
    let (count, queue) = save_tail-queue (some b) now s in
    rw (count, queue)
      (omega (
        arith,
        (trim_queue-total b s.pcm_queue s.queued_samples 0 (omega (arith, h.exact))
            (omega (arith, h.exact, h.fits))).0,
      ))

trim_queue-le : (b : ℕ) (fs : List PcmFrame) (q : ℕ) → total (trim_queue b fs q).0 ≤ total fs
unfolding total trim_queue
trim_queue-le b [] q = omega arith
trim_queue-le b (f ∷ fs) q =
    let t = trim_before f.rtp f.samples b in
    ground (arith, trim_queue-le b fs (sub_size q t.removed), trim_before-counted f.rtp f.samples b)

splice-exact :
    (k : ℕ) (f : PcmFrame) (fs : List PcmFrame) (s : State)
    → total s.pcm_queue + total (f ∷ fs) < size_mod
    → (splice k f fs s).queued_samples ≡ total (splice k f fs s).pcm_queue
unfolding splice
splice-exact k f fs s h =
    let last =
      end_rtp (record f { rtp = add32 f.rtp k; local_target_ns = pos 0 }) (shift_all k fs) in
    let fresh = (trim_queue last s.pcm_queue 0).0 in
    let queue = shift_all k (f ∷ fs) ++ fresh in
    omega (
      arith,
      count_samples-total queue 0 (
          omega (
            arith,
            total-append (shift_all k (f ∷ fs)) fresh,
            total-shift_all k (f ∷ fs),
            trim_queue-le last s.pcm_queue 0,
            h,
          )),
    )

resume_saved-exact :
    (fs : List PcmFrame) (now : ℤ) (s : State)
    → s.paused_pcm ≡ fs
    → IsCounted s
    → (resume_saved fs now s).queued_samples ≡ total (resume_saved fs now s).pcm_queue
resume_saved-exact [] now s e h = h.exact
resume_saved-exact (f ∷ fs) now s e h =
    let elapsed = now -ℤ s.paused_at_ns in
    elim (Bool-cases (
      ltb_ℤ elapsed (pos 200_000_000)
      || ltb_ℤ (pos 120_000_000_000) elapsed
      || not s.synchronize)) [
        | inl dropped ↦ rw dropped h.exact
        | inr spliced ↦
            rw spliced (splice-exact (pause_shift elapsed s.sample_rate) f fs s (rw e at h.fits))
      ]

pub resume-exact :
    (now : ℤ) (s : State)
    → IsCounted s
    → (resume now s).queued_samples ≡ total (resume now s).pcm_queue
unfolding resume
resume-exact now s h = elim (Bool-cases s.imported_pause) [
  | inl imported ↦ simp imported h.exact
  | inr own ↦ simp own (resume_saved-exact s.paused_pcm now s refl h)
]

pub set_synchronized-exact :
    (on : Bool) (now : ℤ) (s : State)
    → IsCounted s
    → (set_synchronized on now s).queued_samples ≡ total (set_synchronized on now s).pcm_queue
unfolding set_synchronized
set_synchronized-exact on now s h =
    let t = record s { synchronize = on && s.has_ntp } in
    let same : IsCounted t = record { exact = h.exact; fits = h.fits } in
    elim (Bool-cases (xor s.synchronize (on && s.has_ntp))) [
      | inl changed ↦ simp changed (flush-exact none now t same)
      | inr kept ↦ simp kept h.exact
    ]
