-- ===== src/Hls/Master.antt =====
-- `filter_master_to_single_variant` and `extract_media_uris` in src/airplay/hls_session.cpp.
use air_play_windows.Base.{
  ltb, ◌==◌, if◌then◌else◌, length, Bytes, codes, equal, is_empty, starts_with, split_at,
  to_lower_char, read_lines, ℕ, zero, suc, ◌+◌, Bool, true, false, ◌&&◌, ◌||◌, Option, none, some,
  List, [], ◌∷◌, ◌++◌,
}
use air_play_windows.Hls.Condensed.{quoted_value, has_token}
use air_play_windows.Hls.Rewrite.{strip_return}

-- `quoted`: the key holds no quotation mark.
unfoldable pub quoted : Bytes → Bytes → Bytes
quoted line key = elim (split_at key line) [
  | none ↦ []
  | some (front, behind) ↦ quoted_value (key ++ behind)
]

abbrev is_end : ℕ → Bool
is_end c = c == b',' || (c == 13 || (c == 10 || c == b' '))

unfoldable pub up_to_end : Bytes → Bytes
up_to_end [] = []
up_to_end (c ∷ cs) = let rest = up_to_end cs in if is_end c then [] else c ∷ rest

unfoldable pub bare_attr : Bytes → Bytes → Bytes
bare_attr line key = elim (split_at key line) [
  | none ↦ []
  | some (front, behind) ↦ up_to_end behind
]

unfoldable pub strip_returns : List Bytes → List Bytes
strip_returns [] = []
strip_returns (l ∷ ls) = strip_return l ∷ strip_returns ls

unfoldable pub split_lines : Bytes → List Bytes
split_lines s = strip_returns (read_lines s)

unfoldable pub lower_ascii : Bytes → Bytes
lower_ascii [] = []
lower_ascii (c ∷ cs) = to_lower_char c ∷ lower_ascii cs

abbrev is_yes : Bytes → Bool
is_yes s = equal s (codes "YES") || (equal s (codes "yes") || equal s (codes "1"))

abbrev is_some_split : Option (Bytes × Bytes) → Bool
is_some_split none = false
is_some_split (some parts) = true

abbrev french : Bytes → Bytes → Bool
french lang name =
    equal lang (codes "fr")
    || (equal lang (codes "fra")
        || (equal lang (codes "fre")
            || (starts_with (codes "fr-") lang
                || (is_some_split (split_at (codes "franc") name)
                    || is_some_split (split_at (codes "french") name)))))

unfoldable pub looks_french : Bytes → Bool
looks_french line =
    french (lower_ascii (quoted line (codes "LANGUAGE=")))
      (lower_ascii (quoted line (codes "NAME=")))

abbrev pub is_media : Bytes → Bool
is_media line = starts_with (codes "#EXT-X-MEDIA:") line

abbrev pub is_stream_inf : Bytes → Bool
is_stream_inf line = starts_with (codes "#EXT-X-STREAM-INF:") line

abbrev pub is_audio : Bytes → Bool
is_audio line = equal (bare_attr line (codes "TYPE=")) (codes "AUDIO")

-- The first pass: the audio group of the first variant.
unfoldable pub audio_group : List Bytes → Bytes
audio_group [] = []
audio_group (l ∷ ls) =
    let rest = audio_group ls in if is_stream_inf l then quoted l (codes "AUDIO=") else rest

-- An audio rendition of the group.
unfoldable pub is_candidate : Bytes → Bytes → Bool
is_candidate group l =
    is_media l && (is_audio l && (is_empty group || equal (quoted l (codes "GROUP-ID=")) group))

unfoldable pub score : Bytes → ℕ
score l =
    1
    + (if is_yes (quoted l (codes "AUTOSELECT=")) then 10 else 0)
    + (if is_yes (quoted l (codes "DEFAULT=")) then 20 else 0)
    + (if looks_french l then 100 else 0)

-- The loop that chooses the rendition, from line `i` on. `best` is `best_score + 1`, since the score
-- starts at -1.
unfoldable pub choose_audio : Bytes → List Bytes → ℕ → ℕ → Option ℕ → Option ℕ
choose_audio group [] i best chosen = chosen
choose_audio group (l ∷ ls) i best chosen =
    let better = is_candidate group l && ltb best (score l + 1) in
    choose_audio group ls (suc i) (if better then score l + 1 else best)
      (if better then some i else chosen)

abbrev is_chosen : ℕ → Option ℕ → Bool
is_chosen i none = false
is_chosen i (some j) = i == j

-- The second pass, from line `i` on; `emitted` is `emitted_stream_inf`.
unfoldable pub emit : Option ℕ → ℕ → Bool → List Bytes → Bytes
emit chosen i emitted [] = []
emit chosen i emitted (l ∷ []) =
    if is_media l
    then (if is_audio l && is_chosen i chosen then l ++ (10 ∷ []) else [])
    else if is_stream_inf l
    then (if emitted then [] else l ++ (10 ∷ []))
    else l
emit chosen i emitted (l ∷ next ∷ ls) =
    let later = emit chosen (suc i) emitted (next ∷ ls) in
    let skipped = emit chosen (suc (suc i)) emitted ls in
    let first = emit chosen (suc (suc i)) true ls in
    if is_media l
    then (if is_audio l && is_chosen i chosen then l ++ (10 ∷ later) else later)
    else if is_stream_inf l
    then (if emitted then skipped else l ++ (10 ∷ (next ++ (10 ∷ first))))
    else l ++ (10 ∷ later)

unfoldable pub filter_master_to_single_variant : Bytes → Bytes
filter_master_to_single_variant master =
    let lines = split_lines master in
    emit (choose_audio (audio_group lines) lines 0 0 none) 0 false lines

-- `extract_media_uris`, on the text from `pos` on; `out` has the addresses in order. A round takes
-- at least the prefix, so the length is fuel enough.
unfoldable pub media_uris : ℕ → Bytes → List Bytes → List Bytes
media_uris zero text out = out
media_uris (suc fuel) text out = elim (split_at (codes "mlhls://localhost/") text) [
  | none ↦ out
  | some (front, behind) ↦ elim (split_at (codes ".m3u8") (codes "mlhls://localhost/" ++ behind)) [
    | none ↦ out
    | some (body, rest) ↦
        let uri = body ++ codes ".m3u8" in
        media_uris fuel rest (if has_token uri out then out else out ++ (uri ∷ []))
  ]
]

unfoldable pub extract_media_uris : Bytes → List Bytes
extract_media_uris master = media_uris (suc (length master)) master []
