-- ===== src/Daap/Fields.antt =====
-- What a track's entries tell, and that the parser finds it.
use air_play_windows.Base.{
  ◌==◌, if◌then◌else◌, Bool-cases, length, All, Bytes, codes, equal, equal_iff, ℕ, suc, ◌-◌, ◌^◌,
  ◌≤◌, ◌<◌, ◌≡◌, refl, sym, ap, ◌∙◌, subst, inl, inr, Bool, true, false, ◌&&◌, ◌||◌, List, [], ◌∷◌,
  arith,
}
use air_play_windows.Daap.{
  Entry, DaapMetadata, no_metadata, be32_of, visit, visit_all, walk_children, has_field,
  parse_daap_mlit,
}
use air_play_windows.Daap.Entries.{IsEntry, encode_all, entries-encode_all, length-encode_all}

abbrev pub is_container : Bytes → Bool
is_container tag =
    equal tag (codes "mlit") || (equal tag (codes "mcon") || equal tag (codes "mlcl"))

abbrev pub IsLeaf : Entry → Type 0
IsLeaf e = is_container e.tag ≡ false

-- The payload of the last entry with a tag.
abbrev pub last_of : Bytes → Bytes → List Entry → Bytes
last_of found tag [] = found
last_of found tag (e ∷ es) = last_of (if equal e.tag tag then e.data_bytes else found) tag es

-- The last duration, of the entries whose payload has four bytes.
abbrev pub last_duration : ℕ → List Entry → ℕ
last_duration found [] = found
last_duration found (e ∷ es) =
    last_duration
      (if equal e.tag (codes "astm") && length e.data_bytes == 4
        then be32_of e.data_bytes
        else found)
      es

abbrev merged : DaapMetadata → List Entry → DaapMetadata
merged out es = record {
  title = last_of out.title (codes "minm") es;
  artist = last_of out.artist (codes "asar") es;
  album = last_of out.album (codes "asal") es;
  duration_ms = last_duration out.duration_ms es;
}

abbrev pub fields : List Entry → DaapMetadata
fields es = merged no_metadata es

visit_tagged :
    (walk : Bytes → DaapMetadata → DaapMetadata) (tag known payload : Bytes) (out : DaapMetadata)
    → visit walk (record { tag = known; data_bytes = payload }) out
      ≡ merged out (record { tag = known; data_bytes = payload } ∷ [])
    → equal tag known ≡ true
    → visit walk (record { tag = tag; data_bytes = payload }) out
      ≡ merged out (record { tag = tag; data_bytes = payload } ∷ [])
visit_tagged walk tag known payload out h same =
    subst
      (λ t.
        visit walk (record { tag = t; data_bytes = payload }) out
        ≡ merged out (record { tag = t; data_bytes = payload } ∷ []))
      (sym ((equal_iff tag known).0 same)) h

visit_leaf :
    (walk : Bytes → DaapMetadata → DaapMetadata) (e : Entry) (out : DaapMetadata)
    → IsLeaf e
    → visit walk e out ≡ merged out (e ∷ [])
unfolding visit equal
visit_leaf walk e out leaf = elim (Bool-cases (equal e.tag (codes "minm"))) [
  | inl same ↦ visit_tagged walk e.tag (codes "minm") e.data_bytes out refl same
  | inr not_title ↦ elim (Bool-cases (equal e.tag (codes "asar"))) [
    | inl same ↦ visit_tagged walk e.tag (codes "asar") e.data_bytes out refl same
    | inr not_artist ↦ elim (Bool-cases (equal e.tag (codes "asal"))) [
      | inl same ↦ visit_tagged walk e.tag (codes "asal") e.data_bytes out refl same
      | inr not_album ↦ elim (Bool-cases (equal e.tag (codes "astm") && length e.data_bytes == 4)) [
        | inl timed ↦ rw (not_title, not_artist, not_album, timed)
        | inr untimed ↦ rw (not_title, not_artist, not_album, untimed, leaf)
      ]
    ]
  ]
]

visit_all_leaves :
    (walk : Bytes → DaapMetadata → DaapMetadata) (es : List Entry) (out : DaapMetadata)
    → All IsLeaf es
    → visit_all walk es out ≡ merged out es
unfolding visit_all
visit_all_leaves walk [] out h = refl
visit_all_leaves walk (e ∷ es) out (leaf, h) =
    ap (visit_all walk es) (visit_leaf walk e out leaf)
    ∙ visit_all_leaves walk es (merged out (e ∷ [])) h

walk_children-leaves :
    (levels : ℕ) (es : List Entry) (out : DaapMetadata)
    → All IsEntry es
    → All IsLeaf es
    → walk_children (suc levels) (encode_all es) out ≡ merged out es
unfolding walk_children
walk_children-leaves levels es out h leaves =
    ap (λ l. visit_all (walk_children levels) l out)
      (entries-encode_all (length (encode_all es)) es h (length-encode_all es h))
    ∙ visit_all_leaves (walk_children levels) es out leaves

abbrev pub mlit : List Entry → Entry
mlit es = record { tag = codes "mlit"; data_bytes = encode_all es }

walk_children-mlit :
    (levels : ℕ) (es : List Entry) (out : DaapMetadata)
    → length (encode_all es) < 2 ^ 32 - 8
    → walk_children (suc levels) (encode_all (mlit es ∷ [])) out
      ≡ walk_children levels (encode_all es) out
unfolding walk_children visit_all visit equal
walk_children-mlit levels es out small =
    ap (λ l. visit_all (walk_children levels) l out)
      (entries-encode_all (length (encode_all (mlit es ∷ []))) (mlit es ∷ []) ((refl, small), tt)
        (length-encode_all (mlit es ∷ []) ((refl, small), tt)))

parse_daap_mlit_long :
    (body : Bytes)
    → 8 ≤ length body
    → parse_daap_mlit body
      ≡ (has_field (walk_children 5 body no_metadata), walk_children 5 body no_metadata)
unfolding parse_daap_mlit
parse_daap_mlit_long body long = ground arith

-- A body that is one `mlit` container around entries that are no containers, each written with its
-- tag, length and payload, is read as the last title, artist, album and four-byte duration among
-- them; the parse succeeds if one of these is not empty.
pub parse_daap_mlit-encode :
    (es : List Entry)
    → All IsEntry es
    → All IsLeaf es
    → length (encode_all es) < 2 ^ 32 - 8
    → parse_daap_mlit (encode_all (mlit es ∷ [])) ≡ (has_field (fields es), fields es)
parse_daap_mlit-encode es h leaves small =
    parse_daap_mlit_long (encode_all (mlit es ∷ [])) (omega arith)
    ∙ ap (λ out. (has_field out, out))
        (walk_children-mlit 4 es no_metadata small ∙ walk_children-leaves 3 es no_metadata h leaves)
