-- ===== src/Sps/Bits.antt =====
-- The bits that a reader has before it, and what reading one does to them.
use air_play_windows.Base.{
  leb, ◌==◌, length, get_elem?, get_or, drop, drop_nil, Bytes, ℕ, zero, suc, ◌-◌, ◌*◌, ◌/◌, ◌%◌,
  ◌^◌, ◌<◌, ◌≡◌, refl, Bool, false, some, List, [], ◌∷◌, arith,
}
use air_play_windows.Sps.{BitReader, u1}

abbrev pub all_bits : Bytes → List Bool
all_bits [] = []
all_bits (x ∷ xs) =
    (x / 128 % 2 == 1)
    ∷ (x / 64 % 2 == 1)
    ∷ (x / 32 % 2 == 1)
    ∷ (x / 16 % 2 == 1)
    ∷ (x / 8 % 2 == 1)
    ∷ (x / 4 % 2 == 1)
    ∷ (x / 2 % 2 == 1)
    ∷ (x % 2 == 1)
    ∷ all_bits xs

length-all_bits : (buf : Bytes) → length (all_bits buf) ≡ length buf * 8
length-all_bits [] = refl
length-all_bits (x ∷ xs) = omega (arith, length-all_bits xs)

drop-cons :
    {A : Type 0} (n : ℕ) (xs : List A) (x : A) (rest : List A)
    → drop n xs ≡ x ∷ rest
    → (n < length xs) × (get_elem? xs n ≡ some x) × (drop (suc n) xs ≡ rest)
drop-cons {A = A} n [] x rest h = absurd (ground (arith, drop_nil {A = A} n, h))
drop-cons zero (y ∷ ys) x rest h = (omega arith, ground (arith, h), ground (arith, h))
drop-cons (suc n) (y ∷ ys) x rest h =
    let (small, there, later) = drop-cons n ys x rest h in (omega arith, there, later)

abbrev bit_at : Bytes → ℕ → Bool
bit_at buf n = get_or buf (n / 8) 0 / 2 ^ (7 - n % 8) % 2 == 1

bit_at-all_bits :
    (buf : Bytes) (n : ℕ) (b : Bool) → get_elem? (all_bits buf) n ≡ some b → bit_at buf n ≡ b
bit_at-all_bits [] n b h = cc
bit_at-all_bits (x ∷ xs) zero b h = ground (arith, h)
bit_at-all_bits (x ∷ xs) (suc zero) b h = ground (arith, h)
bit_at-all_bits (x ∷ xs) (suc (suc zero)) b h = ground (arith, h)
bit_at-all_bits (x ∷ xs) (suc (suc (suc zero))) b h = ground (arith, h)
bit_at-all_bits (x ∷ xs) (suc (suc (suc (suc zero)))) b h = ground (arith, h)
bit_at-all_bits (x ∷ xs) (suc (suc (suc (suc (suc zero))))) b h = ground (arith, h)
bit_at-all_bits (x ∷ xs) (suc (suc (suc (suc (suc (suc zero)))))) b h = ground (arith, h)
bit_at-all_bits (x ∷ xs) (suc (suc (suc (suc (suc (suc (suc zero))))))) b h = ground (arith, h)
bit_at-all_bits (x ∷ xs) (suc (suc (suc (suc (suc (suc (suc (suc n)))))))) b h =
    let m = suc (suc (suc (suc (suc (suc (suc (suc n))))))) in
    let q : m / 8 ≡ suc (n / 8) = omega arith in
    let e : m % 8 ≡ n % 8 = omega arith in rw (q, e) (bit_at-all_bits xs n b h)

-- The reader stands, without an error, in front of exactly these bits.
pub record At (r : BitReader) (bits : List Bool) : Type 0 where
  pub sound : r.error ≡ false
  pub ahead : drop r.at (all_bits r.buf) ≡ bits

pub u1-At :
    (r : BitReader) (b : Bool) (rest : List Bool)
    → At r (b ∷ rest)
    → ((u1 r).0 ≡ b) × At (u1 r).1 rest
unfolding u1
u1-At r b rest h =
    let (small, there, later) = drop-cons r.at (all_bits r.buf) b rest h.ahead in
    let value = bit_at-all_bits r.buf r.at b there in
    let inside : leb (length r.buf * 8) r.at ≡ false =
      ground (arith, small, length-all_bits r.buf) in
    (rw inside value, rw inside (record { sound = h.sound; ahead = later }))
