-- ===== src/Decoder/Written.antt =====
-- Configuration records as a sender writes them (ISO 14496-15), and that the parsers read them.
use air_play_windows.Decoder.Config.{sized_nal, avcc_sets, parse_avcc}
use air_play_windows.Nal.{start_code}
use air_play_windows.Base.{
  ltb, length, All, length-append, take-append, drop-append, Bytes, ℕ, suc, ◌+◌, ◌*◌, ◌/◌, ◌%◌, ◌^◌,
  ◌<◌, ◌≡◌, refl, true, false, some, List, [], ◌∷◌, ◌++◌, append_assoc, arith,
}

abbrev pub be16_bytes : ℕ → Bytes
be16_bytes n = n / 2 ^ 8 % 256 ∷ (n % 256 ∷ [])

abbrev pub Fits : Bytes → Type 0
Fits n = length n < 2 ^ 16

-- Units behind their 16-bit lengths.
abbrev pub sized_units : List Bytes → Bytes
sized_units [] = []
sized_units (n ∷ ns) = be16_bytes (length n) ++ (n ++ sized_units ns)

-- An avcC: the version, profile, constraints, level, the size of a length, and the parameter sets.
-- `high` stands for the three bits above their count.
pub record Avcc : Type 0 where
  pub profile : ℕ
  pub constraints : ℕ
  pub level : ℕ
  pub length_size : ℕ
  pub high : ℕ
  pub sps : Bytes
  pub more_sps : List Bytes
  pub pps : Bytes
  pub more_pps : List Bytes

abbrev pub avcc_record : Avcc → Bytes
avcc_record c =
    1
    ∷ (c.profile
        ∷ (c.constraints
            ∷ (c.level
                ∷ (c.length_size
                    ∷ ((c.high * 32 + suc (length c.more_sps))
                        ∷ (sized_units (c.sps ∷ c.more_sps)
                            ++ (suc (length c.more_pps) ∷ sized_units (c.pps ∷ c.more_pps))))))))

pub record IsAvccRecord (c : Avcc) : Type 0 where
  pub few : suc (length c.more_sps) < 32
  pub sps_fits : Fits c.sps
  pub pps_fits : Fits c.pps
  pub more_sps_fit : All Fits c.more_sps
  pub more_pps_fit : All Fits c.more_pps

pub sized_nal-written :
    (n rest : Bytes) → Fits n → sized_nal (be16_bytes (length n) ++ (n ++ rest)) ≡ some (n, rest)
unfolding sized_nal
sized_nal-written n rest fits =
    let same : length n / 2 ^ 8 % 256 * 2 ^ 8 + length n % 256 ≡ length n = omega (arith, fits) in
    let enough : ltb (length (n ++ rest)) (length n) ≡ false =
      ground (arith, length-append n rest) in
    rw (same, enough, take-append n rest, drop-append n rest)

pub units-append :
    (n rest : Bytes) (ns : List Bytes)
    → sized_units (n ∷ ns) ++ rest ≡ be16_bytes (length n) ++ (n ++ (sized_units ns ++ rest))
units-append n rest ns = rw (append_assoc n (sized_units ns) rest)

avcc_sets-rest :
    (ns : List Bytes) (out rest : Bytes)
    → All Fits ns
    → avcc_sets (length ns) false out (sized_units ns ++ rest) ≡ some (out, rest)
unfolding avcc_sets
avcc_sets-rest [] out rest fit = refl
avcc_sets-rest (n ∷ ns) out rest (fits, fit) =
    rw (units-append n rest ns, sized_nal-written n (sized_units ns ++ rest) fits)
      (avcc_sets-rest ns out rest fit)

avcc_sets-written :
    (n : Bytes) (ns : List Bytes) (rest : Bytes)
    → Fits n
    → All Fits ns
    → avcc_sets (suc (length ns)) true [] (sized_units (n ∷ ns) ++ rest)
      ≡ some (start_code ++ n, rest)
unfolding avcc_sets
avcc_sets-written n ns rest fits fit =
    rw (units-append n rest ns, sized_nal-written n (sized_units ns ++ rest) fits)
      (avcc_sets-rest ns (start_code ++ n) rest fit)

pub avcc_record_long :
    (c : Avcc) (behind : Bytes) → ltb (length (avcc_record c ++ behind)) 7 ≡ false
avcc_record_long c behind = ground arith

-- A record is read, whatever stands behind it.
pub parse_avcc-written :
    (c : Avcc) (behind : Bytes)
    → IsAvccRecord c
    → parse_avcc (avcc_record c ++ behind) ≡ some (start_code ++ c.sps, start_code ++ c.pps)
unfolding parse_avcc
parse_avcc-written c behind ok =
    let sps = sized_units (c.sps ∷ c.more_sps) in
    let pps = sized_units (c.pps ∷ c.more_pps) in
    let count = suc (length c.more_sps) in
    let whole_body : (sps ++ (suc (length c.more_pps) ∷ pps)) ++ behind
        ≡ sps ++ (suc (length c.more_pps) ∷ (pps ++ behind)) =
      append_assoc sps (suc (length c.more_pps) ∷ pps) behind in
    let some_sets : ltb count 1 ≡ false = ground arith in
    let num_sps : (c.high * 32 + count) % 32 ≡ count = omega (arith, ok.few) in
    rw (
      avcc_record_long c behind,
      whole_body,
      num_sps,
      some_sets,
      avcc_sets-written c.sps c.more_sps (suc (length c.more_pps) ∷ (pps ++ behind)) ok.sps_fits
          ok.more_sps_fit,
      avcc_sets-written c.pps c.more_pps behind ok.pps_fits ok.more_pps_fit,
    )
