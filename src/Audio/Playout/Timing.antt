-- ===== src/Audio/Playout/Timing.antt =====
-- When a round of the playout loop plays a block, drops it or leaves the queue alone.
use air_play_windows.Base.{
  Bool-cases, ◌≡◌, refl, sym, subst, ◌⊎◌, inl, inr, true, false, not, ◌&&◌, Option, none, some,
  List, ◌∷◌, arith,
}
use air_play_windows.Base.Int.{ℤ, pos, negsuc, ◌-ℤ◌, ◌≤ℤ◌, ltb_ℤ, ◌<ℤ◌}
use air_play_windows.Audio.Playout.{
  Reading, Outcome, idle, wait_clock, wait_device, wait_until, late, play, has_target, target_of,
  min_ℤ, schedule, schedule_target, play_round, front_round, playout,
}
use air_play_windows.Audio.Queue.{PcmFrame, State}

-- What a round may do to the queue `f ∷ fs` with the deadline `t` of its front block, if it has one.
-- `ahead` is the time from the moment that the device would play the block to its deadline.
abbrev pub ahead : ℤ → Reading → ℤ
ahead t r = (t -ℤ r.now) -ℤ r.pending

-- The deadline allows the block to be played now: it is at most a millisecond ahead and at most a
-- quarter of a second past, or more than five seconds ahead, which no sound anchor gives.
abbrev pub IsDue : Option ℤ → Reading → Type 0
IsDue none r = Unit
IsDue (some t) r =
    ((ahead t r ≤ℤ pos 1_000_000) × (negsuc 249_999_999 ≤ℤ ahead t r))
    ⊎ (pos 5_000_000_000 <ℤ ahead t r)

abbrev IsLate : Option ℤ → Reading → Type 0
IsLate none r = ⊥
IsLate (some t) r = ahead t r <ℤ negsuc 249_999_999

-- The deadline is ahead, and the wait `d` ends at it, or after ten milliseconds where that is sooner.
abbrev IsEarly : ℤ → Option ℤ → Reading → Type 0
IsEarly d none r = ⊥
IsEarly d (some t) r =
    (pos 1_000_000 <ℤ ahead t r)
    × (ahead t r ≤ℤ pos 5_000_000_000)
    × (d ≤ℤ ahead t r)
    × (d ≤ℤ pos 10_000_000)
    × ((d ≡ ahead t r) ⊎ (d ≡ pos 10_000_000))

-- Synchronized playback has no deadline yet, and the clock may still give one.
abbrev AwaitsClock : Option ℤ → State → Reading → Type 0
AwaitsClock t s r =
    (s.synchronize ≡ true)
    × (t ≡ none)
    × (s.has_ntp ≡ true)
    × (r.ntp_running ≡ true)
    × (r.in_grace ≡ true)

-- In synchronized playback the device has enough sound.
abbrev AwaitsDevice : State → Reading → Type 0
AwaitsDevice s r = (s.synchronize ≡ true) × (pos 60_000_000 <ℤ r.pending)

abbrev Free : Option ℤ → State → Reading → Type 0
Free t s r = ¬ AwaitsClock t s r × ¬ AwaitsDevice s r

-- The queue and the outcome, by outcome: only the front block is played or dropped. `t` is the
-- deadline of the front block.
abbrev pub Justified :
    Option ℤ → State → Reading → PcmFrame → List PcmFrame → State × Outcome → Type 0
Justified t s r f fs (s', play g) = (g ≡ f) × (s'.pcm_queue ≡ fs) × IsDue t r × Free t s r
Justified t s r f fs (s', late) = (s'.pcm_queue ≡ fs) × IsLate t r × Free t s r
Justified t s r f fs (s', wait_until d) = (s'.pcm_queue ≡ f ∷ fs) × IsEarly d t r × Free t s r
Justified t s r f fs (s', wait_clock) = (s'.pcm_queue ≡ f ∷ fs) × AwaitsClock t s r
Justified t s r f fs (s', wait_device) =
    (s'.pcm_queue ≡ f ∷ fs) × AwaitsDevice s r × ¬ AwaitsClock t s r
Justified t s r f fs (s', idle) = ⊥

wait_early :
    (a : ℤ)
    → ltb_ℤ (pos 1_000_000) a ≡ true
    → ltb_ℤ (pos 5_000_000_000) a ≡ false
    → let d = min_ℤ a (pos 10_000_000) in
      (pos 1_000_000 <ℤ a)
      × (a ≤ℤ pos 5_000_000_000)
      × (d ≤ℤ a)
      × (d ≤ℤ pos 10_000_000)
      × ((d ≡ a) ⊎ (d ≡ pos 10_000_000))
wait_early a early sound = elim (Bool-cases (ltb_ℤ (pos 10_000_000) a)) [
  | inl long ↦ rw long (ground arith, ground arith, ground arith, omega arith, inr refl)
  | inr short ↦ rw short (ground arith, ground arith, omega arith, ground arith, inl refl)
]

schedule_due :
    (t : ℤ) (r : Reading) (f : PcmFrame) (fs : List PcmFrame) (s : State)
    → s.pcm_queue ≡ f ∷ fs
    → Free (some t) s r
    → Justified (some t) s r f fs (schedule (ahead t r) f fs s)
unfolding schedule
schedule_due t r f fs s q free =
    let a = ahead t r in
    elim (Bool-cases (ltb_ℤ (pos 5_000_000_000) a)) [
      | inl broken ↦ rw broken (refl, refl, inr (ground arith), free)
      | inr sound ↦ elim (Bool-cases (ltb_ℤ (pos 1_000_000) a)) [
        | inl early ↦ rw (sound, early) (q, wait_early a early sound, free)
        | inr not_early ↦ elim (Bool-cases (ltb_ℤ a (negsuc 249_999_999))) [
          | inl past ↦ rw (sound, not_early, past) (refl, ground arith, free)
          | inr due ↦
              rw (sound, not_early, due) (refl, refl, inl (ground arith, ground arith), free)
        ]
      ]
    ]

schedule_target_due :
    (t : Option ℤ) (r : Reading) (f : PcmFrame) (fs : List PcmFrame) (s : State)
    → s.pcm_queue ≡ f ∷ fs
    → Free t s r
    → Justified t s r f fs (schedule_target t r f fs s)
schedule_target_due none r f fs s q free = (refl, refl, tt, free)
schedule_target_due (some t) r f fs s q free = schedule_due t r f fs s q free

has_target-false : (t : Option ℤ) → has_target t ≡ false → t ≡ none
has_target-false none h = refl
has_target-false (some t) h = cc

clock_free :
    (t : Option ℤ) (s : State) (r : Reading)
    → (s.synchronize && not (has_target t) && s.has_ntp && r.ntp_running && r.in_grace) ≡ false
    → ¬ AwaitsClock t s r
clock_free (some t) s r goes (sync, absent, ntp, running, grace) = cc
clock_free none s r goes (sync, absent, ntp, running, grace) =
    ground (arith, goes, sync, ntp, running, grace)

play_round_due :
    (t : Option ℤ) (r : Reading) (f : PcmFrame) (fs : List PcmFrame) (s : State)
    → s.pcm_queue ≡ f ∷ fs
    → target_of s r f ≡ t
    → Justified t s r f fs (play_round r f fs s)
unfolding play_round
play_round_due t r f fs s q e =
    let waits = s.synchronize && not (has_target t) && s.has_ntp && r.ntp_running && r.in_grace in
    let full = s.synchronize && ltb_ℤ (pos 60_000_000) r.pending in
    elim (Bool-cases waits) [
      | inl held ↦
          rw (e, held)
            (
              q,
              (
                ground arith,
                has_target-false t (ground arith),
                ground arith,
                ground arith,
                ground arith,
              ),
            )
      | inr goes ↦ elim (Bool-cases full) [
        | inl busy ↦ rw (e, goes, busy) (q, (ground arith, ground arith), clock_free t s r goes)
        | inr free ↦
            rw (e, goes, free)
              (schedule_target_due t r f fs s q
                (clock_free t s r goes, (λ (sync, much). ground (arith, free, sync, much))))
      ]
    ]

-- On a queue `f ∷ fs` a round of the playout loop waits for the clock only in synchronized playback
-- without a deadline, during the startup grace of a running clock, and else for the device only in
-- synchronized playback while the device has more than 60 milliseconds. Otherwise it plays the
-- front block only when that is due (or has no deadline, or one more than five seconds ahead), drops
-- it only when it is more than a quarter of a second late, and waits only when its deadline is
-- between one millisecond and five seconds ahead: until the deadline, but at most ten milliseconds.
-- A wait leaves the queue alone, and the other rounds take the front block off it.
pub playout_due :
    (r : Reading) (f : PcmFrame) (fs : List PcmFrame) (s : State)
    → s.pcm_queue ≡ f ∷ fs
    → Justified (target_of s r f) s r f fs (playout r s)
unfolding playout
playout_due r f fs s q =
    let t = record s { clear_output = false } in
    subst (λ queue. Justified (target_of s r f) s r f fs (front_round queue r t)) (sym q)
      (play_round_due (target_of s r f) r f fs t q (unfold target_of in refl))
