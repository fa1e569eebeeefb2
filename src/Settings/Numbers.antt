-- ===== src/Settings/Numbers.antt =====
-- Numbers and flags that are written to the file are read back.
use air_play_windows.Base.{
  if◌then◌else◌, Bytes, skip_space, lacks, is_digit, digits_value, decimal, digits_value-decimal,
  decimal_digit, decimal-lacks, ℕ, suc, ◌^◌, ◌<◌, ◌≡◌, refl, sym, ap, ◌∙◌, Bool, true, false, some,
  [], ◌∷◌, append-nil, arith,
}
use air_play_windows.Base.Int.{ℤ, pos, negsuc, ◌-ℤ◌, ◌≤ℤ◌}
use air_play_windows.Settings.{digits_int, stoi, ranged, flagged, int_text, bool_text}

-- An `int` of the sizes that the settings allow.
abbrev pub IsSmall : ℤ → Type 0
IsSmall n = (negsuc 99999 ≤ℤ n) × (n ≤ℤ pos 100000)

digits_int_value :
    (minus : Bool) (c : ℕ) (cs : Bytes) (n : ℕ)
    → is_digit c ≡ true
    → digits_value 0 (c ∷ cs) ≡ n
    → n < 2 ^ 31
    → digits_int minus (c ∷ cs) ≡ some (if minus then pos 0 -ℤ pos n else pos n)
digits_int_value true c cs n digit value small = ground (arith, digit, value, small)
digits_int_value false c cs n digit value small = ground (arith, digit, value, small)

digits_int-decimal :
    (minus : Bool) (n : ℕ)
    → n < 2 ^ 31
    → digits_int minus (decimal n) ≡ some (if minus then pos 0 -ℤ pos n else pos n)
unfolding digits_value
digits_int-decimal minus n small =
    let (c, cs, front, digit) = decimal_digit n in
    let value : digits_value 0 (c ∷ cs) ≡ n =
      ap (digits_value 0) (sym front ∙ sym (append-nil (decimal n))) ∙ digits_value-decimal n [] in
    ap (digits_int minus) front ∙ digits_int_value minus c cs n digit value small

stoi_digits : (c : ℕ) (cs : Bytes) → is_digit c ≡ true → stoi (c ∷ cs) ≡ digits_int false (c ∷ cs)
unfolding stoi skip_space
stoi_digits c cs digit = ground (arith, digit)

stoi-decimal : (n : ℕ) → n < 2 ^ 31 → stoi (decimal n) ≡ some (pos n)
stoi-decimal n small =
    let (c, cs, front, digit) = decimal_digit n in
    ap stoi front
    ∙ stoi_digits c cs digit
    ∙ ap (digits_int false) (sym front)
    ∙ digits_int-decimal false n small

pub stoi-int_text : (n : ℤ) → IsSmall n → stoi (int_text n) ≡ some n
unfolding stoi int_text skip_space ◌-ℤ◌
stoi-int_text (pos n) small = stoi-decimal n (omega arith)
stoi-int_text (negsuc n) small =
    let minus : pos 0 -ℤ pos (suc n) ≡ negsuc n = ground arith in
    digits_int-decimal true (suc n) (omega arith) ∙ ap some minus

-- A printed number in the range is taken.
pub ranged-int_text :
    (lo hi n old : ℤ) → IsSmall n → (lo ≤ℤ n) × (n ≤ℤ hi) → ranged lo hi (stoi (int_text n)) old ≡ n
unfolding ranged
ranged-int_text lo hi n old small (low, high) =
    ap (λ x. ranged lo hi x old) (stoi-int_text n small) ∙ ground (arith, low, high)

pub flagged-bool_text : (b old : Bool) → flagged (stoi (bool_text b)) old ≡ b
unfolding flagged bool_text
flagged-bool_text true old = ap (λ x. flagged x old) (stoi-decimal 1 (omega arith))
flagged-bool_text false old = ap (λ x. flagged x old) (stoi-decimal 0 (omega arith))

pub int_text-lacks : (n : ℤ) → lacks 10 (int_text n) ≡ true
unfolding int_text lacks
int_text-lacks (pos n) = decimal-lacks 10 n refl
int_text-lacks (negsuc n) = ground (arith, decimal-lacks 10 (suc n) refl)

pub bool_text-lacks : (b : Bool) → lacks 10 (bool_text b) ≡ true
unfolding bool_text
bool_text-lacks b = decimal-lacks 10 (if b then 1 else 0) refl
