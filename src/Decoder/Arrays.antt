-- ===== src/Decoder/Arrays.antt =====
-- An hvcC as a sender writes it, and that the parser reads it.
use air_play_windows.Base.{
  ltb, ◌>>=◌, length, get_or, drop, All, length-append, drop-drop, drop-append_at, get_or-append,
  get_or-append_at, Bytes, ℕ, ◌+◌, ◌*◌, ◌/◌, ◌%◌, ◌^◌, ◌≤◌, ◌<◌, ◌≡◌, refl, sym, ap, ◌∙◌, true,
  false, none, some, List, [], ◌∷◌, ◌++◌, append_assoc, arith,
}
use air_play_windows.Decoder.Written.{
  be16_bytes, Fits, sized_units, sized_nal-written, units-append,
}
use air_play_windows.Decoder.Config.{
  parse_avcc, Sets, no_sets, keep_nal, hvcc_nals, hvcc_array, hvcc_arrays, all_found, parse_hvcc,
}

-- An array of an hvcC: two bits, the type of its units, and the units.
pub record Array : Type 0 where
  pub high : ℕ
  pub nal_type : ℕ
  pub nals : List Bytes

pub record IsArray (a : Array) : Type 0 where
  pub typed : a.nal_type < 64
  pub few : length a.nals < 2 ^ 16
  pub fit : All Fits a.nals

abbrev pub arrays : List Array → Bytes
arrays [] = []
arrays (a ∷ rest) =
    (a.high * 64 + a.nal_type) ∷ (be16_bytes (length a.nals) ++ (sized_units a.nals ++ arrays rest))

abbrev keep_head : ℕ → List Bytes → Sets → Sets
keep_head nal_type [] s = s
keep_head nal_type (n ∷ ns) s = keep_nal nal_type n s

-- The first unit of an array.
abbrev keep_first : Array → Sets → Sets
keep_first a s = keep_head a.nal_type a.nals s

abbrev pub kept : List Array → Sets → Sets
kept [] s = s
kept (a ∷ rest) s = kept rest (keep_first a s)

hvcc_nals-rest :
    (nal_type : ℕ) (ns : List Bytes) (s : Sets) (rest : Bytes)
    → All Fits ns
    → hvcc_nals nal_type (length ns) false s (sized_units ns ++ rest) ≡ some (s, rest)
unfolding hvcc_nals
hvcc_nals-rest nal_type [] s rest fit = refl
hvcc_nals-rest nal_type (n ∷ ns) s rest (fits, fit) =
    rw (units-append n rest ns, sized_nal-written n (sized_units ns ++ rest) fits)
      (hvcc_nals-rest nal_type ns s rest fit)

hvcc_nals-written :
    (nal_type : ℕ) (ns : List Bytes) (s : Sets) (rest : Bytes)
    → All Fits ns
    → hvcc_nals nal_type (length ns) true s (sized_units ns ++ rest)
      ≡ some (keep_head nal_type ns s, rest)
unfolding hvcc_nals
hvcc_nals-written nal_type [] s rest fit = refl
hvcc_nals-written nal_type (n ∷ ns) s rest (fits, fit) =
    rw (units-append n rest ns, sized_nal-written n (sized_units ns ++ rest) fits)
      (hvcc_nals-rest nal_type ns (keep_nal nal_type n s) rest fit)

hvcc_arrays-written :
    (more : List Array) (s : Sets) (rest : Bytes)
    → All IsArray more
    → hvcc_arrays (length more) s (arrays more ++ rest) ≡ some (kept more s, rest)
unfolding hvcc_arrays hvcc_array
hvcc_arrays-written [] s rest ok = refl
hvcc_arrays-written (a ∷ more) s rest (good, ok) =
    let typed : (a.high * 64 + a.nal_type) % 64 ≡ a.nal_type = omega (arith, good.typed) in
    let few : length a.nals / 2 ^ 8 % 256 * 2 ^ 8 + length a.nals % 256 ≡ length a.nals =
      omega (arith, good.few) in
    rw
      (
        typed,
        few,
        append_assoc (sized_units a.nals) (arrays more) rest,
        hvcc_nals-written a.nal_type a.nals s (arrays more ++ rest) good.fit,
      )
      (hvcc_arrays-written more (keep_first a s) rest ok)

-- An hvcC: the version, 21 bytes of profile and format, and the arrays behind their count.
abbrev pub hvcc_record : Bytes → List Array → Bytes
hvcc_record format more = 1 ∷ (format ++ (length more ∷ arrays more))

hvcc_record-append :
    (format behind : Bytes) (more : List Array)
    → hvcc_record format more ++ behind ≡ 1 ∷ (format ++ (length more ∷ (arrays more ++ behind)))
hvcc_record-append format behind more =
    ap (◌∷◌ 1) (append_assoc format (length more ∷ arrays more) behind)

hvcc_record_long :
    (format rest : Bytes) (n : ℕ) → length format ≡ 21 → 23 ≤ length (1 ∷ (format ++ (n ∷ rest)))
hvcc_record_long format rest n size = omega (arith, size, length-append format (n ∷ rest))

parse_hvcc-flat :
    (format rest : Bytes) (n : ℕ)
    → length format ≡ 21
    → parse_hvcc (1 ∷ (format ++ (n ∷ rest)))
      ≡ (hvcc_arrays n no_sets rest >>= (λ (x : Sets × Bytes). all_found x.0))
unfolding parse_hvcc
parse_hvcc-flat format rest n size =
    let long : ltb (length (1 ∷ (format ++ (n ∷ rest)))) 23 ≡ false =
      ground (arith, hvcc_record_long format rest n size) in
    let behind : drop 22 (format ++ (n ∷ rest)) ≡ rest =
      sym (drop-drop 21 1 (format ++ (n ∷ rest)))
      ∙ ap (drop 1) (drop-append_at 21 format (n ∷ rest) size) in
    rw (long, get_or-append_at format rest n 21 0 size, behind)

-- The arrays are read, whatever stands behind them.
pub parse_hvcc-written :
    (format behind : Bytes) (more : List Array)
    → length format ≡ 21
    → All IsArray more
    → parse_hvcc (hvcc_record format more ++ behind) ≡ all_found (kept more no_sets)
parse_hvcc-written format behind more size ok =
    ap parse_hvcc (hvcc_record-append format behind more)
    ∙ parse_hvcc-flat format (arrays more ++ behind) (length more) size
    ∙ ap (λ o. o >>= (λ (x : Sets × Bytes). all_found x.0))
        (hvcc_arrays-written more no_sets behind ok)

-- An hvcC with the reserved compatibility flags clear is not taken for an avcC.
parse_avcc-flat :
    (format rest : Bytes) (n : ℕ)
    → length format ≡ 21
    → get_or format 4 0 % 32 ≡ 0
    → parse_avcc (1 ∷ (format ++ (n ∷ rest))) ≡ none
unfolding parse_avcc
parse_avcc-flat format rest n size clear =
    let flags : get_or (format ++ (n ∷ rest)) 4 0 % 32 ≡ 0 =
      ap (λ b. b % 32) (get_or-append format (n ∷ rest) 4 0 (omega (arith, size))) ∙ clear in
    let long : ltb (length (1 ∷ (format ++ (n ∷ rest)))) 7 ≡ false =
      ground (arith, hvcc_record_long format rest n size) in
    rw (long, flags)

pub parse_avcc-hvcc :
    (format behind : Bytes) (more : List Array)
    → length format ≡ 21
    → get_or format 4 0 % 32 ≡ 0
    → parse_avcc (hvcc_record format more ++ behind) ≡ none
parse_avcc-hvcc format behind more size clear =
    ap parse_avcc (hvcc_record-append format behind more)
    ∙ parse_avcc-flat format (arrays more ++ behind) (length more) size clear

pub hvcc_record-long :
    (format behind : Bytes) (more : List Array)
    → length format ≡ 21
    → ltb (length (hvcc_record format more ++ behind)) 7 ≡ false
hvcc_record-long format behind more size = ground (
  arith,
  ap length (hvcc_record-append format behind more),
  hvcc_record_long format (arrays more ++ behind) (length more) size,
)
