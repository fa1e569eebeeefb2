-- ===== src/Sps/Bounds.antt =====
-- The bit reader stays in its buffer.
use air_play_windows.Base.{
  leb, ◌==◌, if◌then◌else◌, Bool-cases, length, Bytes, u32, ℕ, zero, suc, ◌+◌, ◌-◌, ◌*◌, ◌%◌, ◌≤◌,
  ◌≡◌, ap, inl, inr, Bool, true, false, ◌||◌, arith,
}
use air_play_windows.Sps.{BitReader, u1, bit, u_from, u, count_zeros, shifted, ue_value, ue}

-- The position is in the buffer or at its end.
abbrev pub InBuffer : Bytes → BitReader → Type 0
InBuffer buf r = (r.buf ≡ buf) × (r.at ≤ length buf * 8)

pub u1-InBuffer : (buf : Bytes) (r : BitReader) → InBuffer buf r → InBuffer buf (u1 r).1
unfolding u1
u1-InBuffer buf r (same, le) = elim (Bool-cases (leb (length r.buf * 8) r.at)) [
  | inl over ↦ (ground (arith, over, same), ground (arith, over, le))
  | inr more ↦ (ground (arith, more, same), ground (arith, more, le, ap length same))
]

pub if-InBuffer :
    {A : Type 0} (b : Bool) (buf : Bytes) (x y : A × BitReader)
    → InBuffer buf x.1
    → InBuffer buf y.1
    → InBuffer buf (if b then x else y).1
if-InBuffer true buf x y h k = h
if-InBuffer false buf x y h k = k

u_from-InBuffer :
    (n v : ℕ) (buf : Bytes) (r : BitReader) → InBuffer buf r → InBuffer buf (u_from n v r).1
unfolding u_from
u_from-InBuffer zero v buf r h = h
u_from-InBuffer (suc n) v buf r h =
    let next = u1-InBuffer buf r h in
    if-InBuffer (u1 r).1.error buf (0, (u1 r).1) (u_from n ((v * 2 + bit (u1 r).0) % u32) (u1 r).1)
      next (u_from-InBuffer n ((v * 2 + bit (u1 r).0) % u32) buf (u1 r).1 next)

count_zeros-InBuffer :
    (rounds run : ℕ) (buf : Bytes) (r : BitReader)
    → InBuffer buf r
    → InBuffer buf (count_zeros rounds run r).1
unfolding count_zeros
count_zeros-InBuffer zero run buf r h = h
count_zeros-InBuffer (suc rounds) run buf r h =
    let next = u1-InBuffer buf r h in
    if-InBuffer ((u1 r).0 || ((u1 r).1.error || leb 32 run)) buf (run, (u1 r).1)
      (count_zeros rounds (suc run) (u1 r).1) next
      (count_zeros-InBuffer rounds (suc run) buf (u1 r).1 next)

ue_value-InBuffer :
    (run : ℕ) (buf : Bytes) (x : ℕ × BitReader) → InBuffer buf x.1 → InBuffer buf (ue_value run x).1
ue_value-InBuffer run buf (v, r) h =
    if-InBuffer r.error buf (0, r) ((shifted run r + (u32 - 1) + v) % u32, r) h h

pub ue-InBuffer : (buf : Bytes) (r : BitReader) → InBuffer buf r → InBuffer buf (ue r).1
unfolding ue u
ue-InBuffer buf r h =
    let counted = count_zeros 33 0 r in
    let inside = count_zeros-InBuffer 33 0 buf r h in
    if-InBuffer (counted.1.error || counted.0 == 0) buf (0, counted.1)
      (ue_value counted.0 (u counted.0 counted.1)) inside
      (ue_value-InBuffer counted.0 buf (u counted.0 counted.1)
        (u_from-InBuffer counted.0 0 buf counted.1 inside))
