-- ===== src/Hls/Condensed.antt =====
-- `expand_yt_condensed_playlist` and `extract_quoted_attr` in src/airplay/hls_session.cpp.
use air_play_windows.Base.{
  ◌==◌, if◌then◌else◌, length, All, Bytes, codes, equal, is_empty, split_at, split_char, lacks,
  split_on, split_on-append, split_on_last, ℕ, zero, suc, ◌≡◌, refl, ap, ◌∙◌, Bool, true, false,
  not, ◌&&◌, ◌||◌, none, some, List, [], ◌∷◌, ◌++◌, append-nil, arith,
}

unfoldable pub quoted_value : Bytes → Bytes
quoted_value s = elim (split_char b'"' s) [
  | none ↦ []
  | some (front, behind) ↦ elim (split_char b'"' behind) [ none ↦ [] | some (value, rest) ↦ value ]
]

unfoldable pub extract_quoted_attr : Bytes → Bytes → Bytes
extract_quoted_attr src key = elim (split_at key src) [
  | none ↦ []
  | some (front, behind) ↦ quoted_value behind
]

unfoldable pub drop_empty : List Bytes → List Bytes
drop_empty [] = []
drop_empty (t ∷ ts) = let rest = drop_empty ts in if is_empty t then rest else t ∷ rest

-- The fields of a condensed path.
unfoldable pub path_parts : Bytes → List Bytes
path_parts condensed = drop_empty (split_on b'/' condensed)

unfoldable pub has_token : Bytes → List Bytes → Bool
has_token key [] = false
has_token key (t ∷ ts) = equal t key || has_token key ts

unfoldable pub ends_with : ℕ → Bytes → Bool
ends_with ch [] = false
ends_with ch (c ∷ []) = c == ch
ends_with ch (c ∷ d ∷ cs) = ends_with ch (d ∷ cs)

-- "/token" for each token.
unfoldable pub slashed : List Bytes → Bytes
slashed [] = []
slashed (t ∷ ts) = b'/' ∷ (t ++ slashed ts)

-- "/param/val" for each parameter, the value empty where there are too few.
unfoldable pub interleaved : List Bytes → List Bytes → Bytes
interleaved [] parts = []
interleaved (k ∷ ks) [] = b'/' ∷ (k ++ (b'/' ∷ interleaved ks []))
interleaved (k ∷ ks) (v ∷ vs) = b'/' ∷ (k ++ (b'/' ∷ (v ++ interleaved ks vs)))

abbrev pub first_key : List Bytes → Bytes
first_key [] = []
first_key (k ∷ ks) = k

-- `base_uri` with the tokens of both models, before the slash at the end.
unfoldable pub chunk_body : Bytes → List Bytes → List Bytes → Bytes
chunk_body base params parts =
    base ++ (if has_token (first_key params) parts then slashed parts else interleaved params parts)

-- What stands for a condensed line. `base` is not empty, so `out` is not either when its last
-- character is read.
unfoldable pub chunk_url : Bytes → List Bytes → Bytes → Bytes
chunk_url base params condensed =
    let body = chunk_body base params (path_parts condensed) in
    if ends_with b'/' condensed && not (ends_with b'/' body) then body ++ (b'/' ∷ []) else body

-- The text up to the next newline and behind it.
unfoldable pub to_newline : Bytes → Bytes × Bytes
to_newline s = elim (split_char 10 s) [ none ↦ (s, []) | some (line, rest) ↦ (line, rest) ]

-- The loop over the chunks, on the text from `pos` on. A round takes at least the seven bytes of
-- "#EXTINF", so the length is fuel enough.
unfoldable pub expand_loop : ℕ → Bytes → List Bytes → Bytes → Bytes → Bytes
expand_loop zero base params prefix text = text
expand_loop (suc fuel) base params prefix text = elim (split_at (codes "#EXTINF") text) [
  | none ↦ text
  | some (front, behind) ↦ elim (split_at prefix (codes "#EXTINF" ++ behind)) [
    | none ↦ text
    | some (upto, tail) ↦
        let (condensed, rest) = to_newline tail in
        front
        ++ (upto
            ++ (chunk_url base params condensed ++ (10 ∷ expand_loop fuel base params prefix rest)))
  ]
]

abbrev expand_with : Bytes → Bytes → Bytes → Bytes → Bytes
expand_with base params prefix text =
    if is_empty base || (is_empty params || is_empty prefix)
    then text
    else expand_loop (suc (length text)) base (split_on b',' params) prefix text

unfoldable pub expand_yt_condensed_playlist : Bytes → Bytes
expand_yt_condensed_playlist text = elim (split_at (codes "#YT-EXT-CONDENSED-URL") text) [
  | none ↦ text
  | some (front, behind) ↦ elim (split_char 10 behind) [
    | none ↦ text
    | some (attrs, rest) ↦
        let header = codes "#YT-EXT-CONDENSED-URL" ++ attrs in
        expand_with (extract_quoted_attr header (codes "BASE-URI="))
          (extract_quoted_attr header (codes "PARAMS="))
          (extract_quoted_attr header (codes "PREFIX=")) text
  ]
]

-- A field of a condensed path.
abbrev pub IsField : Bytes → Type 0
IsField t = (is_empty t ≡ false) × (lacks b'/' t ≡ true)

drop_empty-full :
    (t : Bytes) (ts : List Bytes) → is_empty t ≡ false → drop_empty (t ∷ ts) ≡ t ∷ drop_empty ts
unfolding drop_empty
drop_empty-full t ts h = rw h

split_last : (t : Bytes) → IsField t → drop_empty (split_on b'/' t) ≡ t ∷ []
unfolding drop_empty
split_last [] (there, plain) = absurd (cc there)
split_last (c ∷ cs) (there, plain) = ap drop_empty (split_on_last b'/' c cs plain)

split_fields :
    (t : Bytes) (ts : List Bytes)
    → IsField t
    → All IsField ts
    → drop_empty (split_on b'/' (t ++ slashed ts)) ≡ t ∷ ts
unfolding slashed
split_fields t [] field h =
    ap (λ s. drop_empty (split_on b'/' s)) (append-nil t) ∙ split_last t field
split_fields t (u ∷ us) (there, plain) (field, h) =
    ap drop_empty (split_on-append b'/' t (u ++ slashed us) plain)
    ∙ drop_empty-full t (split_on b'/' (u ++ slashed us)) there
    ∙ ap (◌∷◌ t) (split_fields u us field h)

-- The fields of a path that is written as "/field" for each of them are these fields.
path_parts-slashed : (ts : List Bytes) → All IsField ts → path_parts (slashed ts) ≡ ts
unfolding path_parts slashed split_on drop_empty
path_parts-slashed [] h = refl
path_parts-slashed (t ∷ ts) (field, h) = split_fields t ts field h

ends_with-append :
    (ch : ℕ) (a b : Bytes) → is_empty b ≡ false → ends_with ch (a ++ b) ≡ ends_with ch b
unfolding ends_with
ends_with-append ch [] b h = refl
ends_with-append ch (c ∷ []) [] h = absurd (cc h)
ends_with-append ch (c ∷ []) (d ∷ ds) h = refl
ends_with-append ch (c ∷ d ∷ ds) b h = ends_with-append ch (d ∷ ds) b h

ends_with-lacks : (ch : ℕ) (t : Bytes) → lacks ch t ≡ true → ends_with ch t ≡ false
unfolding ends_with lacks
ends_with-lacks ch [] h = refl
ends_with-lacks ch (c ∷ []) h = ground (arith, h)
ends_with-lacks ch (c ∷ d ∷ ds) h = ends_with-lacks ch (d ∷ ds) (ground (arith, h))

ends_with-slashed :
    (t : Bytes) (ts : List Bytes) → All IsField (t ∷ ts) → ends_with b'/' (slashed (t ∷ ts)) ≡ false
unfolding slashed
ends_with-slashed t [] ((there, plain), h) =
    let whole : slashed (t ∷ []) ≡ (b'/' ∷ []) ++ t = ap (◌∷◌ b'/') (append-nil t) in
    ap (ends_with b'/') whole
    ∙ ends_with-append b'/' (b'/' ∷ []) t there
    ∙ ends_with-lacks b'/' t plain
ends_with-slashed t (u ∷ us) (field, h) =
    ends_with-append b'/' (b'/' ∷ t) (slashed (u ∷ us)) refl ∙ ends_with-slashed u us h

chunk_body-slashed :
    (base : Bytes) (params : List Bytes) (ts : List Bytes)
    → has_token (first_key params) ts ≡ true
    → chunk_body base params ts ≡ base ++ slashed ts
unfolding chunk_body
chunk_body-slashed base params ts h = rw h

-- Where the fields of a condensed line hold the first parameter's key, the line is only moved to the
-- base address: its fields follow there as they are, whatever the other parameters are.
pub chunk_url-slashed :
    (base : Bytes) (params : List Bytes) (t : Bytes) (ts : List Bytes)
    → All IsField (t ∷ ts)
    → has_token (first_key params) (t ∷ ts) ≡ true
    → chunk_url base params (slashed (t ∷ ts)) ≡ base ++ slashed (t ∷ ts)
unfolding chunk_url
chunk_url-slashed base params t ts h known =
    let parts = path_parts-slashed (t ∷ ts) h in
    let last = ends_with-slashed t ts h in
    let body = ap (chunk_body base params) parts ∙ chunk_body-slashed base params (t ∷ ts) known in
    ground (arith, last, body)
