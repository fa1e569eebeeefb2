-- ===== src/Audio/Playout.antt =====
-- src/audio/audio_receiver.cpp, `playout_fn`: one round of the playout loop.
pub mod Timing
use air_play_windows.Base.{
  if◌then◌else◌, length, sub32, ℕ, zero, Bool, true, false, not, ◌&&◌, Option, none, some, List, [],
  ◌∷◌,
}
use air_play_windows.Base.Int.{ℤ, pos, negsuc, ◌+ℤ◌, ◌-ℤ◌, ◌*ℤ◌, ltb_ℤ, quot, signed32}
use air_play_windows.Audio.Queue.{PcmFrame, State, sub_size}

-- What the round reads outside the queue: the clock, the device's pending time (0 with no device),
-- the NTP client's local time for the anchor, whether that client runs, and whether the startup
-- grace period has not ended.
pub record Reading : Type 0 where
  pub now : ℤ
  pub pending : ℤ
  pub anchor_time : Option ℤ
  pub ntp_running : Bool
  pub in_grace : Bool

-- How the round ends: with a wait, with the front block dropped as late, or played.
pub data Outcome : Type 0 where
  idle wait_clock wait_device : Outcome
  wait_until : ℤ → Outcome
  late : Outcome
  play : PcmFrame → Outcome

abbrev pub is_zero : ℤ → Bool
is_zero (pos zero) = true
is_zero _ = false

abbrev pub has_target : Option ℤ → Bool
has_target none = false
has_target (some t) = true

abbrev shift_anchor : ℕ → ℕ → Option ℤ → Option ℤ
shift_anchor ticks rate none = none
shift_anchor ticks rate (some t) = some (t +ℤ quot (signed32 ticks *ℤ pos 1_000_000_000) rate)

-- The deadline of the front block, if one is known.
unfoldable pub target_of : State → Reading → PcmFrame → Option ℤ
target_of s r f =
    if not (is_zero f.local_target_ns)
    then some f.local_target_ns
    else if s.synchronize && s.has_ntp && s.have_anchor
    then shift_anchor (sub32 f.rtp s.sync_rtp) s.sample_rate r.anchor_time
    else none

abbrev play_front : PcmFrame → List PcmFrame → State → State × Outcome
play_front f fs s = (
  record s { pcm_queue = fs; queued_samples = sub_size s.queued_samples (length f.samples) },
  play f,
)

abbrev pub min_ℤ : ℤ → ℤ → ℤ
min_ℤ a b = if ltb_ℤ b a then b else a

-- The tests on `advance`, for a block with a deadline.
unfoldable pub schedule : ℤ → PcmFrame → List PcmFrame → State → State × Outcome
schedule advance f fs s =
    if ltb_ℤ (pos 5_000_000_000) advance
    then play_front f fs s
    else if ltb_ℤ (pos 1_000_000) advance
    then (s, wait_until (min_ℤ advance (pos 10_000_000)))
    else if ltb_ℤ advance (negsuc 249_999_999)
    then (
      record s { pcm_queue = fs; queued_samples = sub_size s.queued_samples (length f.samples) },
      late,
    )
    else play_front f fs s

abbrev pub schedule_target : Option ℤ → Reading → PcmFrame → List PcmFrame → State → State × Outcome
schedule_target none r f fs s = play_front f fs s
schedule_target (some t) r f fs s = schedule ((t -ℤ r.now) -ℤ r.pending) f fs s

unfoldable pub play_round : Reading → PcmFrame → List PcmFrame → State → State × Outcome
play_round r f fs s =
    let target = target_of s r f in
    if s.synchronize && not (has_target target) && s.has_ntp && r.ntp_running && r.in_grace
    then (s, wait_clock)
    else if s.synchronize && ltb_ℤ (pos 60_000_000) r.pending
    then (s, wait_device)
    else schedule_target target r f fs s

abbrev pub front_round : List PcmFrame → Reading → State → State × Outcome
front_round [] r s = (s, idle)
front_round (f ∷ fs) r s = play_round r f fs s

-- A round with the lock held. `clear_output_` empties the device and is reset.
unfoldable pub playout : Reading → State → State × Outcome
playout r s = front_round s.pcm_queue r (record s { clear_output = false })

-- What the loop leaves when `running_` has been cleared.
unfoldable pub end_playout : State → State
end_playout s = record s { pcm_queue = []; queued_samples = 0 }
