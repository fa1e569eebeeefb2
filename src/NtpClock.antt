-- ===== src/NtpClock.antt =====
-- src/airplay/ntp_clock.h: `NtpClock`, which maps the sender's NTP timestamps to the local steady
-- clock. A local time is an int64_t of nanoseconds; the differences stay far below 2 ^ 63.
pub mod Delta
pub mod Samples
mod Tests
use air_play_windows.Base.{
  ◌==◌, if◌then◌else◌, set, u32, sub32, ℕ, ◌+◌, ◌/◌, ◌%◌, Bool, true, false, not, ◌||◌, Option,
  none, some, List, [], ◌∷◌,
}
use air_play_windows.Base.Int.{ℤ, pos, negsuc, ◌+ℤ◌, ◌-ℤ◌, ◌*ℤ◌, ltb_ℤ, quot, signed32}

-- The difference of two 64-bit NTP timestamps in nanoseconds: whole seconds modulo 2 ^ 32, read as
-- signed, and the fractions.
unfoldable pub delta_ns : ℕ → ℕ → ℤ
delta_ns value reference =
    let seconds = sub32 (value / u32 % u32) (reference / u32 % u32) in
    let fractions = pos (value % u32) -ℤ pos (reference % u32) in
    signed32 seconds *ℤ pos 1_000_000_000 +ℤ quot (fractions *ℤ pos 1_000_000_000) u32

pub record Sample : Type 0 where
  pub valid : Bool
  pub remote : ℕ
  pub local : ℤ
  pub observed : ℤ
  pub rtt : ℤ

-- The eight samples and the count of those accepted, an `unsigned` that wraps at 2 ^ 32.
pub record Clock : Type 0 where
  pub samples : List Sample
  pub next : ℕ

abbrev pub no_sample : Sample
no_sample = record { valid = false; remote = 0; local = pos 0; observed = pos 0; rtt = pos 0 }

abbrev pub fresh_clock : Clock
fresh_clock = record {
  samples =
      no_sample ∷ no_sample ∷ no_sample ∷ no_sample ∷ no_sample ∷ no_sample ∷ no_sample ∷ no_sample
      ∷ [];
  next = 0;
}

-- The condition of the early return of `observe`.
unfoldable pub is_refused : ℤ → ℤ → ℕ → ℕ → Bool
is_refused sent received remote_received remote_sent =
    let processing = delta_ns remote_sent remote_received in
    let elapsed = received -ℤ sent in
    let delay = elapsed -ℤ processing in
    remote_received == 0
    || remote_sent == 0
    || ltb_ℤ processing (pos 0)
    || ltb_ℤ elapsed (pos 0)
    || ltb_ℤ (pos 1_000_000_000) elapsed
    || ltb_ℤ delay (negsuc 999_999)
    || ltb_ℤ (pos 500_000_000) delay

-- The sample that an accepted exchange gives.
unfoldable pub sample_of : ℤ → ℤ → ℕ → ℕ → Sample
sample_of sent received remote_received remote_sent =
    let delay = (received -ℤ sent) -ℤ delta_ns remote_sent remote_received in
    let rtt = if ltb_ℤ (pos 0) delay then delay else pos 0 in
    record {
      valid = true;
      remote = remote_sent;
      local = received -ℤ quot rtt 2;
      observed = received;
      rtt = rtt;
    }

unfoldable pub observe : ℤ → ℤ → ℕ → ℕ → Clock → Clock × Bool
observe sent received remote_received remote_sent c =
    if is_refused sent received remote_received remote_sent then (c, false) else (
      record {
        samples = set c.samples (c.next % 8) (sample_of sent received remote_received remote_sent);
        next = (c.next + 1) % u32;
      },
      true,
    )

-- `continue` on a sample that is not valid, not yet observed or older than thirty seconds.
abbrev pub is_usable : ℤ → Sample → Bool
is_usable now s =
    not (not s.valid || ltb_ℤ now s.observed || ltb_ℤ (pos 30_000_000_000) (now -ℤ s.observed))

abbrev pub better : Option Sample → Sample → Option Sample
better none s = some s
better (some b) s = if ltb_ℤ s.rtt b.rtt then some s else some b

-- The loop of `local_time` over the samples.
unfoldable pub best_from : Option Sample → ℤ → List Sample → Option Sample
best_from best now [] = best
best_from best now (s ∷ ss) = best_from (if is_usable now s then better best s else best) now ss

abbrev pub time_from : Option Sample → ℕ → Option ℤ
time_from none remote = none
time_from (some b) remote =
    let delta = delta_ns remote b.remote in
    if ltb_ℤ delta (negsuc 29_999_999_999) || ltb_ℤ (pos 30_000_000_000) delta
    then none
    else some (b.local +ℤ delta)

unfoldable pub local_time : Clock → ℕ → ℤ → Option ℤ
local_time c remote now = time_from (best_from none now c.samples) remote
