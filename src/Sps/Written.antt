-- ===== src/Sps/Written.antt =====
-- The parser reads a parameter set as an encoder writes it.
use air_play_windows.Base.{
  ltb, leb, ◌==◌, if◌then◌else◌, Bool-cases, length, Bytes, ℕ, suc, ◌%◌, ◌≤◌, ◌≡◌, refl, sym, ap,
  ◌∙◌, subst, inl, inr, Bool, true, false, not, ◌&&◌, ◌||◌, Option, none, some, List, [], ◌∷◌,
  arith,
}
use air_play_windows.Sps.{BitReader, u1, ue}
use air_play_windows.Sps.Bits.{all_bits, At, u1-At}
use air_play_windows.Sps.Escape.{escape, ebsp_to_rbsp-escape}
use air_play_windows.Sps.Golomb.{code, ue-code}
use air_play_windows.Sps.Parse.{
  SpsInfo, no_info, has_chroma_ext, scaling_matrix, skip_plane_flag, skip_chroma, skip_order, Crop,
  read_crop, Fields, skip_adaptive, read_fields, skip_chroma_of, read_all, sized, finish,
  parse_rbsp, parse_h264_sps,
}
use air_play_windows.Sps.Syntax.{
  Chroma, Order, by_counter, as_decoded, Syntax, IsSmallChroma, IsSmallOrder, IsSmallCrop, IsSyntax,
  chroma_bits, order_bits, crop_bits, adaptive_bits, frame_bits, sps_bits, crop_of, has_crop,
  fields_of,
}

skip_plane_flag-At :
    (format : ℕ) (flag : Bool) (bits : List Bool) (r : BitReader)
    → At r (if format == 3 then flag ∷ bits else bits)
    → At (skip_plane_flag format r) bits
skip_plane_flag-At format flag bits r h = elim (Bool-cases (format == 3)) [
  | inl planes ↦
      rw planes (u1-At r flag bits (subst (λ b. At r (if b then flag ∷ bits else bits)) planes h)).1
  | inr whole ↦ rw whole (subst (λ b. At r (if b then flag ∷ bits else bits)) whole h)
]

scaling_matrix-absent :
    (format : ℕ) (x : Bool × BitReader) → x.0 ≡ false → scaling_matrix format x ≡ x.1
scaling_matrix-absent format (false, r) h = refl
scaling_matrix-absent format (true, r) h = cc

skip_chroma-At :
    (c : Chroma) (rest : List Bool) (r : BitReader)
    → IsSmallChroma c
    → At r (chroma_bits c rest)
    → At (skip_chroma r) rest
unfolding skip_chroma
skip_chroma-At c rest r (format, luma, depth) h =
    let tail = c.bypass ∷ false ∷ rest in
    let depths = code c.luma_depth (code c.chroma_depth tail) in
    let (value, a1) =
      ue-code c.format (if c.format == 3 then c.plane_flag ∷ depths else depths) r format h in
    let r2 = skip_plane_flag (ue r).0 (ue r).1 in
    let a2 : At r2 depths =
      rw value (skip_plane_flag-At c.format c.plane_flag depths (ue r).1 a1) in
    let a3 = (ue-code c.luma_depth (code c.chroma_depth tail) r2 luma a2).1 in
    let a4 = (ue-code c.chroma_depth tail (ue r2).1 depth a3).1 in
    let r4 = (ue (ue r2).1).1 in
    let a5 = (u1-At r4 c.bypass (false ∷ rest) a4).1 in
    let (matrix, a6) = u1-At (u1 r4).1 false rest a5 in
    subst (λ x. At x rest) (sym (scaling_matrix-absent (ue r).0 (u1 (u1 r4).1) matrix)) a6

skip_chroma_of-At :
    (profile : ℕ) (c : Chroma) (rest : List Bool) (r : BitReader)
    → IsSmallChroma c
    → At r (if has_chroma_ext profile then chroma_bits c rest else rest)
    → At (skip_chroma_of profile r) rest
skip_chroma_of-At profile c rest r small h = elim (Bool-cases (has_chroma_ext profile)) [
  | inl high ↦ rw high (
      skip_chroma-At c rest r small
        (subst (λ b. At r (if b then chroma_bits c rest else rest)) high h))
  | inr low ↦ rw low (subst (λ b. At r (if b then chroma_bits c rest else rest)) low h)
]

skip_order-At :
    (o : Order) (rest : List Bool) (r : BitReader)
    → IsSmallOrder o
    → At r (order_bits o rest)
    → At (skip_order r) rest
unfolding skip_order
skip_order-At (by_counter n) rest r small h =
    let (kind, a1) = ue-code 0 (code n rest) r (omega arith) h in
    rw kind (ue-code n rest (ue r).1 small a1).1
skip_order-At as_decoded rest r small h =
    let (kind, a1) = ue-code 2 rest r (omega arith) h in rw kind a1

-- What a piece of the parser gives, and where it leaves the reader.
abbrev Reads : {A : Type 0} → A × BitReader → A → List Bool → Type 0
Reads x a rest = (x.0 ≡ a) × At x.1 rest

read_crop-Reads :
    (c : Option Crop) (rest : List Bool) (r : BitReader)
    → IsSmallCrop c
    → At r (crop_bits c rest)
    → ((u1 r).0 ≡ has_crop c) × Reads (read_crop (u1 r).0 (u1 r).1) (crop_of c) rest
unfolding read_crop
read_crop-Reads none rest r small h =
    let (absent, a1) = u1-At r false rest h in (absent, (rw absent refl, rw absent a1))
read_crop-Reads (some c) rest r (l, rt, t, b) h =
    let r0 = (u1 r).1 in
    let (there, a1) =
      u1-At r true (code c.left (code c.right (code c.top (code c.bottom rest)))) h in
    let (lv, a2) = ue-code c.left (code c.right (code c.top (code c.bottom rest))) r0 l a1 in
    let (rv, a3) = ue-code c.right (code c.top (code c.bottom rest)) (ue r0).1 rt a2 in
    let (tv, a4) = ue-code c.top (code c.bottom rest) (ue (ue r0).1).1 t a3 in
    let (bv, a5) = ue-code c.bottom rest (ue (ue (ue r0).1).1).1 b a4 in
    (
      there,
      (
        rw there (λ i. record { left = lv i; right = rv i; top = tv i; bottom = bv i }),
        rw there a5,
      ),
    )

skip_adaptive-At :
    (only adaptive : Bool) (bits : List Bool) (r : BitReader)
    → At r (adaptive_bits only adaptive bits)
    → At (skip_adaptive only r) bits
skip_adaptive-At true adaptive bits r h = h
skip_adaptive-At false adaptive bits r h = (u1-At r adaptive bits h).1

read_fields-Reads :
    (s : Syntax) (rest : List Bool) (r : BitReader)
    → IsSyntax s
    → At r (frame_bits s rest)
    → Reads (read_fields r) (fields_of s) rest
unfolding read_fields
read_fields-Reads s rest r small h =
    let ends = s.direct ∷ crop_bits s.crop rest in
    let behind_only = adaptive_bits s.frames_only s.adaptive ends in
    let behind_width = code s.height (s.frames_only ∷ behind_only) in
    let a1 = (ue-code s.ref_frames (s.gaps ∷ code s.width behind_width) r small.ref_frames h).1 in
    let a2 = (u1-At (ue r).1 s.gaps (code s.width behind_width) a1).1 in
    let r2 = (u1 (ue r).1).1 in
    let (w, a3) = ue-code s.width behind_width r2 small.width a2 in
    let r3 = (ue r2).1 in
    let (h', a4) = ue-code s.height (s.frames_only ∷ behind_only) r3 small.height a3 in
    let r4 = (ue r3).1 in
    let (only, a5) = u1-At r4 s.frames_only behind_only a4 in
    let r5 = (u1 r4).1 in
    let a6 : At (skip_adaptive (u1 r4).0 r5) ends =
      subst (λ b. At (skip_adaptive b r5) ends) (sym only)
        (skip_adaptive-At s.frames_only s.adaptive ends r5 a5) in
    let r6 = skip_adaptive (u1 r4).0 r5 in
    let a7 = (u1-At r6 s.direct (crop_bits s.crop rest) a6).1 in
    let (crops, (crop, a8)) = read_crop-Reads s.crop rest (u1 r6).1 small.crop a7 in
    (
      λ i. record {
        width_in_mbs = w i;
        height_in_map_units = h' i;
        frame_mbs_only = only i;
        cropping = crops i;
        crop = crop i;
      },
      a8,
    )

read_all-Reads :
    (s : Syntax) (rest : List Bool) (r : BitReader)
    → IsSyntax s
    → At r (sps_bits s rest)
    → Reads (read_all s.profile r) (fields_of s) rest
unfolding read_all
read_all-Reads s rest r small h =
    let behind_num = order_bits s.order (frame_bits s rest) in
    let later = code s.frame_num behind_num in
    let extended = if has_chroma_ext s.profile then chroma_bits s.chroma later else later in
    let a1 = (ue-code s.set_id extended r small.set_id h).1 in
    let r1 = (ue r).1 in
    let a2 = skip_chroma_of-At s.profile s.chroma later r1 small.chroma a1 in
    let r2 = skip_chroma_of s.profile r1 in
    let a3 = (ue-code s.frame_num behind_num r2 small.frame_num a2).1 in
    let a4 = skip_order-At s.order (frame_bits s rest) (ue r2).1 small.order a3 in
    read_fields-Reads s rest (skip_order (ue r2).1) small a4

finish-Reads :
    (info : SpsInfo) (x : Fields × BitReader) (f : Fields) (rest : List Bool)
    → Reads x f rest
    → finish info x ≡ (true, sized info f)
finish-Reads info (g, r) f rest (same, at) = rw at.sound (ap (λ k. (true, sized info k)) same)

length-escape : (run : ℕ) (bs : Bytes) → length bs ≤ length (escape run bs)
unfolding escape
length-escape run [] = omega arith
length-escape run (b ∷ bs) = elim (Bool-cases (leb 2 run && leb b 3)) [
  | inl guarded ↦ rw guarded (omega (arith, length-escape (if b == 0 then 1 else 0) bs))
  | inr plain ↦ rw plain (omega (arith, length-escape (if b == 0 then suc run else 0) bs))
]

abbrev pub info_of : Syntax → SpsInfo
info_of s = record no_info { profile_idc = s.profile; level_idc = s.level }

-- The parser reads every parameter set without scaling lists that is written field by field, with
-- the extension of the high profiles where the profile has it, pictures ordered by a counter or as
-- decoded, any flags, any crop and any numbers below 2 ^ 32 - 1, behind emulation prevention and a
-- header of type 7, whatever bits follow: it succeeds with the profile and the level and with the
-- size that `compute_frame_size` makes of the written fields.
pub parse_h264_sps-written :
    (overshift header flags : ℕ) (s : Syntax) (payload : Bytes) (rest : List Bool)
    → header % 32 ≡ 7
    → IsSyntax s
    → all_bits payload ≡ sps_bits s rest
    → parse_h264_sps overshift (header ∷ escape 0 (s.profile ∷ flags ∷ s.level ∷ payload))
      ≡ (true, sized (info_of s) (fields_of s))
unfolding parse_h264_sps
parse_h264_sps-written overshift header flags s payload rest kind small written =
    let body = s.profile ∷ flags ∷ s.level ∷ payload in
    let long = length-escape 0 body in
    let fits : (ltb (length (header ∷ escape 0 body)) 4 || not (header % 32 == 7)) ≡ false =
      ground (arith, long, kind) in
    let r : BitReader = record { buf = payload; at = 0; error = false; overshift = overshift } in
    let read = read_all-Reads s rest r small (record { sound = refl; ahead = written }) in
    rw fits (
      ap (parse_rbsp overshift) (ebsp_to_rbsp-escape body)
      ∙ finish-Reads (info_of s) (read_all s.profile r) (fields_of s) rest read)
