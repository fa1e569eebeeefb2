-- ===== src/NtpClock/Delta.antt =====
-- The difference of timestamps.
use air_play_windows.Base.{u32, sub32, ℕ, ◌+◌, ◌*◌, ◌/◌, ◌%◌, ◌^◌, ◌<◌, ◌≡◌, ap, ◌≢◌, arith}
use air_play_windows.Base.Int.{pos, pos_part, neg_part, ◌+ℤ◌, ◌-ℤ◌, ◌*ℤ◌, int_laws, quot, signed32}
use air_play_windows.NtpClock.{delta_ns}

ticks_on :
    (reference k : ℕ)
    → reference < 2 ^ 64
    → k < 2 ^ 31
    → (sub32 ((reference + k * u32) % 2 ^ 64 / u32 % u32) (reference / u32 % u32) ≡ k)
      × ((reference + k * u32) % 2 ^ 64 % u32 ≡ reference % u32)
ticks_on reference k h small = omega arith

no_fraction : (n : ℕ) → quot ((pos n -ℤ pos n) *ℤ pos 1_000_000_000) u32 ≡ pos 0
unfolding ◌-ℤ◌ ◌*ℤ◌ quot
no_fraction n = ground arith

whole : (k : ℕ) → k < 2 ^ 31 → signed32 k *ℤ pos 1_000_000_000 +ℤ pos 0 ≡ pos (k * 1_000_000_000)
unfolding ◌+ℤ◌ ◌*ℤ◌
whole k h = ground arith

-- A number of whole seconds below 2 ^ 31 is measured exactly, also where the 32 bits of seconds of
-- the sender's clock run over between the two timestamps.
pub delta_ns_seconds :
    (reference k : ℕ)
    → reference < 2 ^ 64
    → k < 2 ^ 31
    → delta_ns ((reference + k * u32) % 2 ^ 64) reference ≡ pos (k * 1_000_000_000)
unfolding delta_ns
delta_ns_seconds reference k h small =
    let (seconds, fraction) = ticks_on reference k h small in
    rw (seconds, fraction, no_fraction (reference % u32)) (whole k small)

seconds_swap :
    (a b : ℕ)
    → a < u32
    → b < u32
    → sub32 a b ≢ 2 ^ 31
    → signed32 (sub32 a b) *ℤ pos 1_000_000_000 +ℤ signed32 (sub32 b a) *ℤ pos 1_000_000_000 ≡ pos 0
unfolding ◌+ℤ◌ ◌*ℤ◌
seconds_swap a b h k ne = ground arith

fractions_swap :
    (a b : ℕ)
    → quot ((pos a -ℤ pos b) *ℤ pos 1_000_000_000) u32
        +ℤ quot ((pos b -ℤ pos a) *ℤ pos 1_000_000_000) u32
      ≡ pos 0
unfolding ◌+ℤ◌ ◌-ℤ◌ ◌*ℤ◌ quot
fractions_swap a b = ground arith

-- Swapped timestamps give the opposite difference, unless their seconds are exactly 2 ^ 31 apart.
pub delta_ns_swap :
    (a b : ℕ)
    → sub32 (a / u32 % u32) (b / u32 % u32) ≢ 2 ^ 31
    → delta_ns a b +ℤ delta_ns b a ≡ pos 0
unfolding delta_ns
delta_ns_swap a b h =
    let seconds = seconds_swap (a / u32 % u32) (b / u32 % u32) (omega arith) (omega arith) h in
    let fractions = fractions_swap (a % u32) (b % u32) in
    omega (
      int_laws,
      ap pos_part seconds,
      ap neg_part seconds,
      ap pos_part fractions,
      ap neg_part fractions,
    )
