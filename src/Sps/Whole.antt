-- ===== src/Sps/Whole.antt =====
-- The whole parse stays in the buffer.
use air_play_windows.Base.{ltb, ◌==◌, if◌then◌else◌, Bytes, ℕ, zero, suc, ◌+◌, Bool, true, false}
use air_play_windows.Base.Int.{ℤ, pos, ◌+ℤ◌}
use air_play_windows.Sps.{BitReader, u1, ue, se_value, se}
use air_play_windows.Sps.Bounds.{InBuffer, u1-InBuffer, if-InBuffer, ue-InBuffer}
use air_play_windows.Sps.Parse.{
  has_chroma_ext, rem_256, is_zero, next_scale, scaling_list, scaling_lists, scaling_matrix,
  skip_plane_flag, skip_chroma, skip_offsets, skip_cycle, skip_order, read_crop, skip_adaptive,
  read_fields, skip_chroma_of, read_all,
}

choose-InBuffer :
    (b : Bool) (buf : Bytes) (x y : BitReader)
    → InBuffer buf x
    → InBuffer buf y
    → InBuffer buf (if b then x else y)
choose-InBuffer true buf x y h k = h
choose-InBuffer false buf x y h k = k

se-InBuffer : (buf : Bytes) (r : BitReader) → InBuffer buf r → InBuffer buf (se r).1
unfolding se
se-InBuffer buf r h =
    let next = ue-InBuffer buf r h in
    if-InBuffer (ue r).1.error buf (pos 0, (ue r).1) (se_value (ue r).0, (ue r).1) next next

next_scale-InBuffer :
    (last next : ℤ) (buf : Bytes) (r : BitReader)
    → InBuffer buf r
    → InBuffer buf (next_scale last next r).1
unfolding next_scale
next_scale-InBuffer last next buf r h =
    if-InBuffer (is_zero next) buf (next, r) (rem_256 (last +ℤ (se r).0 +ℤ pos 256), (se r).1) h
      (se-InBuffer buf r h)

scaling_list-InBuffer :
    (size : ℕ) (last next : ℤ) (buf : Bytes) (r : BitReader)
    → InBuffer buf r
    → InBuffer buf (scaling_list size last next r)
unfolding scaling_list
scaling_list-InBuffer zero last next buf r h = h
scaling_list-InBuffer (suc size) last next buf r h =
    let (n, r') = next_scale last next r in
    let m = if is_zero n then last else n in
    choose-InBuffer r.error buf r (scaling_list size m n r') h
      (scaling_list-InBuffer size m n buf r' (next_scale-InBuffer last next buf r h))

scaling_lists-InBuffer :
    (left i : ℕ) (buf : Bytes) (r : BitReader)
    → InBuffer buf r
    → InBuffer buf (scaling_lists left i r)
unfolding scaling_lists
scaling_lists-InBuffer zero i buf r h = h
scaling_lists-InBuffer (suc left) i buf r h =
    let (present, r') = u1 r in
    let h' = u1-InBuffer buf r h in
    let size = if ltb i 6 then 16 else 64 in
    let listed = scaling_list size (pos 8) (pos 8) r' in
    let r'' = if present then listed else r' in
    choose-InBuffer r.error buf r (scaling_lists left (i + 1) r'') h (
      scaling_lists-InBuffer left (i + 1) buf r'' (
        choose-InBuffer present buf listed r' (scaling_list-InBuffer size (pos 8) (pos 8) buf r' h')
          h'))

scaling_matrix-InBuffer :
    (format : ℕ) (buf : Bytes) (x : Bool × BitReader)
    → InBuffer buf x.1
    → InBuffer buf (scaling_matrix format x)
scaling_matrix-InBuffer format buf (false, r) h = h
scaling_matrix-InBuffer format buf (true, r) h =
    scaling_lists-InBuffer (if format == 3 then 12 else 8) 0 buf r h

skip_chroma-InBuffer : (buf : Bytes) (r : BitReader) → InBuffer buf r → InBuffer buf (skip_chroma r)
unfolding skip_chroma
skip_chroma-InBuffer buf r h =
    let (format, r1) = ue r in
    let h1 = ue-InBuffer buf r h in
    let r2 = skip_plane_flag format r1 in
    let h2 = choose-InBuffer (format == 3) buf (u1 r1).1 r1 (u1-InBuffer buf r1 h1) h1 in
    let h4 = ue-InBuffer buf (ue r2).1 (ue-InBuffer buf r2 h2) in
    let r5 = (u1 (ue (ue r2).1).1).1 in
    scaling_matrix-InBuffer format buf (u1 r5)
      (u1-InBuffer buf r5 (u1-InBuffer buf (ue (ue r2).1).1 h4))

skip_offsets-InBuffer :
    (n : ℕ) (buf : Bytes) (r : BitReader) → InBuffer buf r → InBuffer buf (skip_offsets n r)
unfolding skip_offsets
skip_offsets-InBuffer zero buf r h = h
skip_offsets-InBuffer (suc n) buf r h =
    choose-InBuffer r.error buf r (skip_offsets n (se r).1) h
      (skip_offsets-InBuffer n buf (se r).1 (se-InBuffer buf r h))

skip_order-InBuffer : (buf : Bytes) (r : BitReader) → InBuffer buf r → InBuffer buf (skip_order r)
unfolding skip_order
skip_order-InBuffer buf r h =
    let (kind, r1) = ue r in
    let h1 = ue-InBuffer buf r h in
    let r2 = (se (se (u1 r1).1).1).1 in
    let h2 = se-InBuffer buf (se (u1 r1).1).1 (se-InBuffer buf (u1 r1).1 (u1-InBuffer buf r1 h1)) in
    choose-InBuffer (kind == 0) buf (ue r1).1 (if kind == 1 then skip_cycle r1 else r1)
      (ue-InBuffer buf r1 h1)
      (choose-InBuffer (kind == 1) buf (skip_cycle r1) r1
        (skip_offsets-InBuffer (ue r2).0 buf (ue r2).1 (ue-InBuffer buf r2 h2)) h1)

read_crop-InBuffer :
    (cropping : Bool) (buf : Bytes) (r : BitReader)
    → InBuffer buf r
    → InBuffer buf (read_crop cropping r).1
unfolding read_crop
read_crop-InBuffer false buf r h = h
read_crop-InBuffer true buf r h =
    let r1 = (ue r).1 in
    let r2 = (ue r1).1 in
    let r3 = (ue r2).1 in
    ue-InBuffer buf r3 (ue-InBuffer buf r2 (ue-InBuffer buf r1 (ue-InBuffer buf r h)))

skip_adaptive-InBuffer :
    (only : Bool) (buf : Bytes) (r : BitReader)
    → InBuffer buf r
    → InBuffer buf (skip_adaptive only r)
skip_adaptive-InBuffer true buf r h = h
skip_adaptive-InBuffer false buf r h = u1-InBuffer buf r h

read_fields-InBuffer :
    (buf : Bytes) (r : BitReader) → InBuffer buf r → InBuffer buf (read_fields r).1
unfolding read_fields
read_fields-InBuffer buf r h =
    let r2 = (u1 (ue r).1).1 in
    let h2 = u1-InBuffer buf (ue r).1 (ue-InBuffer buf r h) in
    let r4 = (ue (ue r2).1).1 in
    let h4 = ue-InBuffer buf (ue r2).1 (ue-InBuffer buf r2 h2) in
    let (only, r5) = u1 r4 in
    let r6 = skip_adaptive only r5 in
    let h6 = skip_adaptive-InBuffer only buf r5 (u1-InBuffer buf r4 h4) in
    let r7 = (u1 r6).1 in
    read_crop-InBuffer (u1 r7).0 buf (u1 r7).1 (u1-InBuffer buf r7 (u1-InBuffer buf r6 h6))

-- From any bytes, with scaling lists, cycles of offsets and codes of any length, the parse of all
-- the fields leaves the buffer as it is and the position at most at its end, if the position was so
-- before.
pub read_all-InBuffer :
    (profile : ℕ) (buf : Bytes) (r : BitReader)
    → InBuffer buf r
    → InBuffer buf (read_all profile r).1
unfolding read_all
read_all-InBuffer profile buf r h =
    let r1 = (ue r).1 in
    let h1 = ue-InBuffer buf r h in
    let r2 = skip_chroma_of profile r1 in
    let h2 =
      choose-InBuffer (has_chroma_ext profile) buf (skip_chroma r1) r1
        (skip_chroma-InBuffer buf r1 h1) h1 in
    let h3 = ue-InBuffer buf r2 h2 in
    read_fields-InBuffer buf (skip_order (ue r2).1) (skip_order-InBuffer buf (ue r2).1 h3)
