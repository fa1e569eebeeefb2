-- ===== src/Sps/Golomb.antt =====
-- The codes that `ue` reads: as many zeros as there are bits behind the first 1.
use air_play_windows.Base.{
  ltb, leb, ◌==◌, if◌then◌else◌, Bool-cases, length, length-append, u32, ℕ, zero, suc, ◌+◌, ◌-◌,
  ◌*◌, ◌/◌, ◌%◌, ◌^◌, ◌≤◌, ◌<◌, ◌≡◌, refl, ap, ◌∙◌, inl, inr, Bool, true, false, List, [], ◌∷◌,
  ◌++◌, arith,
}
use air_play_windows.Sps.{BitReader, u1, bit, u_from, u, count_zeros, ue_value, ue}
use air_play_windows.Sps.Bits.{At, u1-At}
use native.Mathlib.Nat.{pow-suc}

-- The number that bits continue.
abbrev pub number : ℕ → List Bool → ℕ
number a [] = a
number a (b ∷ bs) = number (a * 2 + bit b) bs

number-append :
    (a : ℕ) (bs : List Bool) (b : Bool) → number a (bs ++ (b ∷ [])) ≡ number a bs * 2 + bit b
number-append a [] b = refl
number-append a (c ∷ bs) b = number-append (a * 2 + bit c) bs b

number_ge : (a : ℕ) (bs : List Bool) → a ≤ number a bs
number_ge a [] = omega arith
number_ge a (b ∷ bs) = omega (arith, number_ge (a * 2 + bit b) bs)

number-suc : (a : ℕ) (bs : List Bool) → number (suc a) bs ≡ number a bs + 2 ^ length bs
number-suc a [] = omega arith
number-suc a (b ∷ bs) =
    let c = a * 2 + bit b in
    let twice : suc a * 2 + bit b ≡ suc (suc c) = omega arith in
    let rest = number-suc (suc c) bs in
    let more = number-suc c bs in
    ap (λ n. number n bs) twice ∙ omega (arith, rest, more, pow-suc 2 (length bs))

u_from-At :
    (bs rest : List Bool) (v : ℕ) (r : BitReader)
    → At r (bs ++ rest)
    → number v bs < u32
    → ((u_from (length bs) v r).0 ≡ number v bs) × At (u_from (length bs) v r).1 rest
unfolding u_from
u_from-At [] rest v r h small = (refl, h)
u_from-At (b ∷ bs) rest v r h small =
    let (value, next) = u1-At r b (bs ++ rest) h in
    let room = number_ge (v * 2 + bit b) bs in
    let same : (v * 2 + bit (u1 r).0) % u32 ≡ v * 2 + bit b = rw value (omega arith) in
    let (there, at) = u_from-At bs rest (v * 2 + bit b) (u1 r).1 next small in
    (rw (next.sound, same) there, rw (next.sound, same) at)

abbrev pub zeros : ℕ → List Bool → List Bool
zeros zero bits = bits
zeros (suc n) bits = false ∷ zeros n bits

count_zeros-At :
    (n rounds run : ℕ) (rest : List Bool) (r : BitReader)
    → At r (zeros n (true ∷ rest))
    → n < rounds
    → run + n ≤ 32
    → ((count_zeros rounds run r).0 ≡ run + n) × At (count_zeros rounds run r).1 rest
unfolding count_zeros
count_zeros-At n zero run rest r h lt le = absurd (omega arith)
count_zeros-At zero (suc rounds) run rest r h lt le =
    let (value, next) = u1-At r true rest h in (rw value (omega arith), rw value next)
count_zeros-At (suc n) (suc rounds) run rest r h lt le =
    let (value, next) = u1-At r false (zeros n (true ∷ rest)) h in
    let on : leb 32 run ≡ false = ground (arith, le) in
    let (there, at) =
      count_zeros-At n rounds (suc run) rest (u1 r).1 next (omega arith) (omega arith) in
    (rw (value, next.sound, on) (there ∙ omega arith), rw (value, next.sound, on) at)

-- The bits of n + 1 behind its first 1, of which there are `k` at most.
abbrev pub bits_within : ℕ → ℕ → List Bool
bits_within zero n = []
bits_within (suc k) n =
    let front = bits_within k ((n - 1) / 2) in
    if n == 0 then [] else front ++ (((n - 1) % 2 == 1) ∷ [])

number-bits_within : (k n : ℕ) → n + 1 < 2 ^ suc k → number 1 (bits_within k n) ≡ n + 1
number-bits_within zero n small = omega arith
number-bits_within (suc k) n small = elim (Bool-cases (n == 0)) [
  | inl none_left ↦ ground (arith, none_left)
  | inr more ↦
      let power = pow-suc 2 (suc k) in
      let positive : 0 < n = ground (arith, more) in
      let rest = number-bits_within k ((n - 1) / 2) (omega arith) in
      let last : bit ((n - 1) % 2 == 1) ≡ (n - 1) % 2 = ground arith in
      rw more (
        number-append 1 (bits_within k ((n - 1) / 2)) ((n - 1) % 2 == 1)
        ∙ omega (arith, rest, last))
]

length-bits_within : (k n : ℕ) → length (bits_within k n) ≤ k
length-bits_within zero n = omega arith
length-bits_within (suc k) n = elim (Bool-cases (n == 0)) [
  | inl none_left ↦ rw none_left (omega arith)
  | inr more ↦ rw more (
      omega (
        arith,
        length-append (bits_within k ((n - 1) / 2)) (((n - 1) % 2 == 1) ∷ []),
        length-bits_within k ((n - 1) / 2),
      ))
]

-- The Exp-Golomb code of a number, in front of more bits.
unfoldable pub code : ℕ → List Bool → List Bool
code n rest = let bs = bits_within 31 n in zeros (length bs) (true ∷ (bs ++ rest))

-- The result of `ue` behind the zeros.
ue_value-At :
    (bs rest : List Bool) (r : BitReader)
    → At r (bs ++ rest)
    → length bs ≤ 31
    → number 1 bs < u32
    → ((ue_value (length bs) (u (length bs) r)).0 + 1 ≡ number 1 bs)
      × At (ue_value (length bs) (u (length bs) r)).1 rest
unfolding u
ue_value-At bs rest r h short small =
    let sum = number-suc 0 bs in
    let (value, after) = u_from-At bs rest 0 r h (omega (arith, sum)) in
    let fits : ltb (length bs) 32 ≡ true = ground (arith, short) in
    let room : (2 ^ length bs + (u32 - 1) + number 0 bs) % u32 + 1 ≡ number 1 bs =
      let positive = number_ge 1 bs in omega (arith, sum, small, positive) in
    (rw (after.sound, fits, value) room, rw after.sound after)

ue-At :
    (bs rest : List Bool) (r : BitReader)
    → At r (zeros (length bs) (true ∷ (bs ++ rest)))
    → length bs ≤ 31
    → number 1 bs < u32
    → ((ue r).0 + 1 ≡ number 1 bs) × At (ue r).1 rest
unfolding ue
ue-At bs rest r h short small =
    let counted = count_zeros 33 0 r in
    let (run, next) =
      count_zeros-At (length bs) 33 0 (bs ++ rest) r h (omega arith) (omega arith) in
    go bs (omega (arith, run)) next short small
  where
    go :
        (cs : List Bool)
        → (count_zeros 33 0 r).0 ≡ length cs
        → At (count_zeros 33 0 r).1 (cs ++ rest)
        → length cs ≤ 31
        → number 1 cs < u32
        → ((ue r).0 + 1 ≡ number 1 cs) × At (ue r).1 rest
    go [] run next short small = (rw (next.sound, run) refl, rw (next.sound, run) next)
    go (c ∷ cs) run next short small =
        let (value, after) = ue_value-At (c ∷ cs) rest (count_zeros 33 0 r).1 next short small in
        let some_left : (suc (length cs) == 0) ≡ false = ground arith in
        (rw (next.sound, run, some_left) value, rw (next.sound, run, some_left) after)

-- `ue` reads back every number below 2 ^ 32 - 1 from its Exp-Golomb code, whatever bits follow, and
-- leaves the reader in front of these.
pub ue-code :
    (n : ℕ) (rest : List Bool) (r : BitReader)
    → n + 1 < u32
    → At r (code n rest)
    → ((ue r).0 ≡ n) × At (ue r).1 rest
unfolding code
ue-code n rest r small h =
    let short = length-bits_within 31 n in
    let one : number 1 (bits_within 31 n) ≡ n + 1 = number-bits_within 31 n small in
    let (value, after) = ue-At (bits_within 31 n) rest r h short (omega (arith, one)) in
    (omega (arith, value, one), after)
