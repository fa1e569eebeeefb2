-- ===== src/Hls/Rewrite.antt =====
-- `rewrite_segments_to_local` in src/airplay/hls_session.cpp.
use air_play_windows.Base.{
  ◌==◌, if◌then◌else◌, length, Bytes, codes, starts_with, split_at, split_char, assign, decimal, ℕ,
  zero, suc, ◌+◌, Bool, true, false, not, ◌||◌, none, some, List, [], ◌∷◌, ◌++◌,
}
use air_play_windows.Hls.{HlsSession}

unfoldable pub local_path : ℕ → Bytes
local_path n = codes "/seg/" ++ decimal n

unfoldable pub local_url : ℕ → Bytes → Bytes
local_url port path = codes "http://localhost:" ++ (decimal port ++ path)

-- `register_local`: the local url and the session that resolves it.
unfoldable pub register_local : ℕ → Bytes → HlsSession → Bytes × HlsSession
register_local port url s =
    let path = local_path s.seg_url_counter in
    (
      local_url port path,
      record s {
        seg_url_map = assign path url s.seg_url_map;
        seg_url_counter = suc s.seg_url_counter;
      },
    )

-- The lines and whether a newline ends them.
abbrev pub push_piece : ℕ → List (Bytes × Bool) → List (Bytes × Bool)
push_piece c [] = (c ∷ [], false) ∷ []
push_piece c ((l, ended) ∷ ps) = (c ∷ l, ended) ∷ ps

unfoldable pub pieces : Bytes → List (Bytes × Bool)
pieces [] = []
pieces (c ∷ cs) = let rest = pieces cs in if c == 10 then ([], true) ∷ rest else push_piece c rest

abbrev pub is_uri : Bytes → Bool
is_uri [] = false
is_uri (c ∷ cs) = not (c == b'#' || (c == b' ' || (c == 9 || c == 13)))

abbrev pub is_local_candidate : Bytes → Bool
is_local_candidate raw =
    starts_with (codes "http://") raw
    || (starts_with (codes "https://") raw
        || (starts_with (codes "mlhls://") raw || starts_with (codes "/") raw))

-- What a rewriting gives: the text, the session and the number of urls replaced.
pub record Rewritten : Type 0 where
  pub out : Bytes
  pub session : HlsSession
  pub count : ℕ

abbrev pub in_front : Bytes → ℕ → Rewritten → Rewritten
in_front text n r = record r { out = text ++ r.out; count = n + r.count }

-- The loop over the URI attributes of a tag line, on the text from `p` on. A round takes the five
-- characters of `URI="`, so the length is fuel enough.
unfoldable pub rewrite_tag : ℕ → ℕ → Bytes → HlsSession → Rewritten
rewrite_tag zero port text s = record { out = text; session = s; count = 0 }
rewrite_tag (suc fuel) port text s = elim (split_at (codes "URI=\"") text) [
  | none ↦ record { out = text; session = s; count = 0 }
  | some (front, behind) ↦ elim (split_char b'"' behind) [
    | none ↦ record { out = text; session = s; count = 0 }
    | some (raw, after) ↦ elim (is_local_candidate raw) [
      | true ↦
          let (local, s') = register_local port raw s in
          in_front (front ++ (codes "URI=\"" ++ local)) 1 (rewrite_tag fuel port (b'"' ∷ after) s')
      | false ↦
          in_front (front ++ (codes "URI=\"" ++ (raw ++ (b'"' ∷ [])))) 0
            (rewrite_tag fuel port after s)
    ]
  ]
]

-- `url_line.pop_back()` on a carriage return.
unfoldable pub strip_return : Bytes → Bytes
strip_return [] = []
strip_return (c ∷ []) = if c == 13 then [] else c ∷ []
strip_return (c ∷ d ∷ cs) = c ∷ strip_return (d ∷ cs)

abbrev pub of_uri : Bytes × HlsSession → Rewritten
of_uri (local, s) = record { out = local; session = s; count = 1 }

unfoldable pub rewrite_line : ℕ → Bytes → HlsSession → Rewritten
rewrite_line port line s =
    if is_uri line
    then of_uri (register_local port (strip_return line) s)
    else rewrite_tag (length line) port line s

abbrev pub newline : Bool → Bytes
newline true = 10 ∷ []
newline false = []

unfoldable pub rewrite_pieces : ℕ → List (Bytes × Bool) → HlsSession → Rewritten
rewrite_pieces port [] s = record { out = []; session = s; count = 0 }
rewrite_pieces port ((line, ended) ∷ ps) s =
    let r = rewrite_line port line s in
    in_front (r.out ++ newline ended) r.count (rewrite_pieces port ps r.session)

unfoldable pub rewrite_segments_to_local : ℕ → Bytes → HlsSession → Rewritten
rewrite_segments_to_local port expanded s = rewrite_pieces port (pieces expanded) s
