-- ===== src/Decoder/Config.antt =====
-- The parsers of configuration records in src/video/h264_decoder.cpp. They walk what is left of the
-- record, so a read past its end is a list that has too few bytes.
use air_play_windows.Nal.{start_code}
use air_play_windows.Base.{
  ltb, leb, ◌==◌, if◌then◌else◌, ◌>>=◌, length, get_or, take, drop, Bytes, codes, is_empty, be32,
  starts_with, ℕ, zero, suc, ◌+◌, ◌-◌, ◌*◌, ◌%◌, ◌^◌, Bool, true, false, not, ◌&&◌, ◌||◌, Option,
  none, some, [], ◌∷◌, ◌++◌,
}

abbrev pub append_annexb_nal : Bytes → Bytes → Bytes
append_annexb_nal dst nal = dst ++ (start_code ++ nal)

-- A unit behind its 16-bit length, and what follows it.
unfoldable pub sized_nal : Bytes → Option (Bytes × Bytes)
sized_nal [] = none
sized_nal (hi ∷ []) = none
sized_nal (hi ∷ lo ∷ rest) =
    let len = hi * 2 ^ 8 + lo in
    if ltb (length rest) len then none else some (take len rest, drop len rest)

-- The loop over the units of one kind in an avcC, of which the first is kept.
unfoldable pub avcc_sets : ℕ → Bool → Bytes → Bytes → Option (Bytes × Bytes)
avcc_sets zero first out rest = some (out, rest)
avcc_sets (suc n) first out rest = do
  (nal, rest') ← sized_nal rest
  avcc_sets n false (if first then append_annexb_nal out nal else out) rest'

abbrev both_found : Bytes → Bytes → Option (Bytes × Bytes)
both_found sps pps = if is_empty sps || is_empty pps then none else some (sps, pps)

-- The picture parameter sets, behind their count.
abbrev pub avcc_pps : Bytes → Bytes → Option (Bytes × Bytes)
avcc_pps sps [] = none
avcc_pps sps (num_pps ∷ rest) = do
  (pps, behind) ← avcc_sets num_pps true [] rest
  both_found sps pps

-- The sequence and picture parameter sets, or that the record is refused.
unfoldable pub parse_avcc : Bytes → Option (Bytes × Bytes)
parse_avcc blob =
    let num_sps = get_or blob 5 0 % 32 in
    if ltb (length blob) 7 || not (get_or blob 0 0 == 1)
    then none
    else if ltb num_sps 1
    then none
    else do (sps, rest) ← avcc_sets num_sps true [] (drop 6 blob); avcc_pps sps rest

-- The three outputs of `parse_hvcc`.
pub record Sets : Type 0 where
  pub vps : Bytes
  pub sps : Bytes
  pub pps : Bytes

abbrev pub no_sets : Sets
no_sets = record { vps = []; sps = []; pps = [] }

abbrev pub keep_nal : ℕ → Bytes → Sets → Sets
keep_nal nal_type nal s =
    if nal_type == 32
    then record s { vps = append_annexb_nal s.vps nal }
    else if nal_type == 33
    then record s { sps = append_annexb_nal s.sps nal }
    else if nal_type == 34
    then record s { pps = append_annexb_nal s.pps nal }
    else s

-- The units of one array, of which the first is kept.
unfoldable pub hvcc_nals : ℕ → ℕ → Bool → Sets → Bytes → Option (Sets × Bytes)
hvcc_nals nal_type zero first s rest = some (s, rest)
hvcc_nals nal_type (suc n) first s rest = do
  (nal, rest') ← sized_nal rest
  hvcc_nals nal_type n false (if first then keep_nal nal_type nal s else s) rest'

unfoldable pub hvcc_array : Sets → Bytes → Option (Sets × Bytes)
hvcc_array s (kind ∷ hi ∷ lo ∷ rest) = hvcc_nals (kind % 64) (hi * 2 ^ 8 + lo) true s rest
hvcc_array s _ = none

unfoldable pub hvcc_arrays : ℕ → Sets → Bytes → Option (Sets × Bytes)
hvcc_arrays zero s rest = some (s, rest)
hvcc_arrays (suc n) s rest = do (s', rest') ← hvcc_array s rest; hvcc_arrays n s' rest'

abbrev pub all_found : Sets → Option Sets
all_found s = if is_empty s.vps || (is_empty s.sps || is_empty s.pps) then none else some s

unfoldable pub parse_hvcc : Bytes → Option Sets
parse_hvcc blob =
    if ltb (length blob) 23 || not (get_or blob 0 0 == 1)
    then none
    else do (s, behind) ← hvcc_arrays (get_or blob 22 0) no_sets (drop 23 blob); all_found s

-- The content of a box that starts here, with the code `fourcc` and a size that fits.
unfoldable pub box_at : Bytes → Bytes → Option Bytes
box_at fourcc blob =
    let box_size = be32 (get_or blob 0 0) (get_or blob 1 0) (get_or blob 2 0) (get_or blob 3 0) in
    if starts_with fourcc (drop 4 blob) && (leb 9 box_size && leb box_size (length blob))
    then some (take (box_size - 8) (drop 8 blob))
    else none

unfoldable pub find_box : Bytes → Bytes → Option Bytes
find_box fourcc [] = none
find_box fourcc (b ∷ blob) =
    let later = find_box fourcc blob in
    elim (box_at fourcc (b ∷ blob)) [ some inner ↦ some inner | none ↦ later ]

abbrev or_else : Option Bytes → Option Bytes → Option Bytes
or_else none b = b
or_else (some a) b = some a

unfoldable pub find_inner_config_box : Bytes → Option Bytes
find_inner_config_box blob = or_else (find_box (codes "avcC") blob) (find_box (codes "hvcC") blob)
