-- ===== src/Base/Words.antt =====
-- 32-bit unsigned arithmetic, with its wrap-around.
use Prim.Native.Nat.{ℕ, ◌+◌, ◌-◌, ◌%◌, ◌^◌}

abbrev pub u32 : ℕ
u32 = 2 ^ 32

-- `(uint32_t)(a - b)`.
abbrev pub sub32 : ℕ → ℕ → ℕ
sub32 a b = (a + u32 - b) % u32

abbrev pub add32 : ℕ → ℕ → ℕ
add32 a b = (a + b) % u32
