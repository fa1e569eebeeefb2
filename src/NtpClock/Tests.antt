-- ===== src/NtpClock/Tests.antt =====
-- Runs of the clock, and its theorems at concrete states.
use air_play_windows.Base.{◌≡◌, refl, true}
use air_play_windows.Base.Int.{pos, ◌+ℤ◌, ◌-ℤ◌, ◌*ℤ◌, quot}
use air_play_windows.NtpClock.{delta_ns, Clock, fresh_clock, is_refused, observe, local_time}
use air_play_windows.NtpClock.Samples.{Explains, local_time-Explains}

-- One exchange: 4 ms round trip, 1 ms of which the sender took.
abbrev one_sample : Clock
one_sample = (observe (pos 1_000_000) (pos 5_000_000) 4294967296 4299262263 fresh_clock).0

observed_one : (observe (pos 1_000_000) (pos 5_000_000) 4294967296 4299262263 fresh_clock).1 ≡ true
unfolding observe is_refused delta_ns quot ◌+ℤ◌ ◌-ℤ◌ ◌*ℤ◌
observed_one = refl

local_time-Explains_example :
    Explains one_sample 8589934592
      (pos 6_000_000)
      (local_time one_sample 8589934592 (pos 6_000_000))
local_time-Explains_example = local_time-Explains one_sample 8589934592 (pos 6_000_000)
