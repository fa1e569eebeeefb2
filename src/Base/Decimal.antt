-- ===== src/Base/Decimal.antt =====
-- Numbers in decimal, as `<<` and `std::to_string` print them and as the readers of numbers take
-- them.
use Prim.Native.Nat.{ℕ, zero, suc, ◌+◌, ◌-◌, ◌*◌, ◌/◌, ◌%◌, ◌<◌}
use mathlib.Core.Path.{◌≡◌, refl, ap, sym, ◌∙◌}
use mathlib.Core.Bool.{Bool, true, false, ◌&&◌}
use mathlib.Core.Logic.{inl, inr}
use mathlib.Core.List.{[], ◌∷◌, ◌++◌, append_assoc}
use native.Mathlib.Omega.{arith}
use air_play_windows.Base.Tests.{ltb, leb, if◌then◌else◌, Bool-cases}
use air_play_windows.Base.Text.{Bytes}
use air_play_windows.Base.Search.{lacks}

abbrev pub is_digit : ℕ → Bool
is_digit c = leb b'0' c && leb c b'9'

-- The number that the digits at the front of a text continue.
unfoldable pub digits_value : ℕ → Bytes → ℕ
digits_value n [] = n
digits_value n (c ∷ cs) = if is_digit c then digits_value (n * 10 + (c - b'0')) cs else n

unfoldable pub decimal_from : ℕ → ℕ → Bytes
decimal_from zero n = []
decimal_from (suc fuel) n =
    let front = decimal_from fuel (n / 10) in
    if ltb n 10 then (b'0' + n) ∷ [] else front ++ ((b'0' + n % 10) ∷ [])

-- A number has no more digits than its value and one.
unfoldable pub decimal : ℕ → Bytes
decimal n = decimal_from (suc n) n

digits_value-decimal_from :
    (fuel n : ℕ) (rest : Bytes)
    → n < fuel
    → digits_value 0 (decimal_from fuel n ++ rest) ≡ digits_value n rest
unfolding decimal_from digits_value
digits_value-decimal_from zero n rest h = absurd (omega arith)
digits_value-decimal_from (suc fuel) n rest h = elim (Bool-cases (ltb n 10)) [
  | inl small ↦ ground (arith, small)
  | inr large ↦ ground (
    arith,
    large,
    append_assoc (decimal_from fuel (n / 10)) ((b'0' + n % 10) ∷ []) rest,
    digits_value-decimal_from fuel (n / 10) ((b'0' + n % 10) ∷ rest),
  )
]

-- Reading a printed number goes on behind it with the number.
pub digits_value-decimal :
    (n : ℕ) (rest : Bytes) → digits_value 0 (decimal n ++ rest) ≡ digits_value n rest
unfolding decimal
digits_value-decimal n rest = digits_value-decimal_from (suc n) n rest (omega arith)

-- Different numbers are printed differently.
pub decimal_injective : (m n : ℕ) → decimal m ≡ decimal n → m ≡ n
unfolding digits_value
decimal_injective m n h =
    sym (digits_value-decimal m [])
    ∙ ap (λ s. digits_value 0 (s ++ [])) h
    ∙ digits_value-decimal n []

-- What `std::from_chars` and the like ask of a whole text.
unfoldable pub all_digits : Bytes → Bool
all_digits [] = true
all_digits (c ∷ cs) = is_digit c && all_digits cs

all_digits-append :
    (s t : Bytes) → all_digits s ≡ true → all_digits t ≡ true → all_digits (s ++ t) ≡ true
unfolding all_digits
all_digits-append [] t h k = k
all_digits-append (c ∷ cs) t h k = ground (arith, h, all_digits-append cs t, k)

all_digits-decimal_from : (fuel n : ℕ) → all_digits (decimal_from fuel n) ≡ true
unfolding decimal_from all_digits
all_digits-decimal_from zero n = refl
all_digits-decimal_from (suc fuel) n = elim (Bool-cases (ltb n 10)) [
  | inl small ↦ ground (arith, small)
  | inr large ↦
      let last : all_digits ((b'0' + n % 10) ∷ []) ≡ true = ground arith in
      ground (
        arith,
        large,
        all_digits-append (decimal_from fuel (n / 10)) ((b'0' + n % 10) ∷ [])
            (all_digits-decimal_from fuel (n / 10)) last,
      )
]

pub all_digits-decimal : (n : ℕ) → all_digits (decimal n) ≡ true
unfolding decimal
all_digits-decimal n = all_digits-decimal_from (suc n) n

decimal_from_digit :
    (fuel n : ℕ)
    → n < fuel
    → (c : ℕ) × (cs : Bytes) × (decimal_from fuel n ≡ c ∷ cs) × (is_digit c ≡ true)
unfolding decimal_from
decimal_from_digit zero n h = absurd (omega arith)
decimal_from_digit (suc fuel) n h = elim (Bool-cases (ltb n 10)) [
  | inl small ↦ (b'0' + n, [], ground (arith, small), ground (arith, small))
  | inr large ↦
      let (c, cs, front, digit) = decimal_from_digit fuel (n / 10) (ground (arith, large)) in
      (c, cs ++ ((b'0' + n % 10) ∷ []), ground (arith, large, front), digit)
]

-- A printed number begins with a digit.
pub decimal_digit : (n : ℕ) → (c : ℕ) × (cs : Bytes) × (decimal n ≡ c ∷ cs) × (is_digit c ≡ true)
unfolding decimal
decimal_digit n = decimal_from_digit (suc n) n (omega arith)

all_digits-lacks :
    (ch : ℕ) (s : Bytes) → is_digit ch ≡ false → all_digits s ≡ true → lacks ch s ≡ true
unfolding all_digits lacks
all_digits-lacks ch [] h k = refl
all_digits-lacks ch (c ∷ cs) h k = ground (arith, h, k, all_digits-lacks ch cs h)

-- A printed number has no character but digits.
pub decimal-lacks : (ch n : ℕ) → is_digit ch ≡ false → lacks ch (decimal n) ≡ true
decimal-lacks ch n h = all_digits-lacks ch (decimal n) h (all_digits-decimal n)
