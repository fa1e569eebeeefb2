-- ===== src/Hls/Resolve.antt =====
-- The local paths that a rewritten playlist names lead back to the sender's urls.
use air_play_windows.Base.{
  Bool-cases, Option-cases, length, drop, All, Bytes, codes, equal, equal_iff, split_at, split_char,
  lookup, assign, lookup-assign, lookup-assign_other, decimal_injective, ℕ, zero, suc, ◌+◌, ◌<◌,
  ◌≡◌, refl, sym, ap, ◌∙◌, inl, inr, Bool, true, false, none, some, List, [], ◌∷◌, ◌++◌,
  append_assoc, arith,
}
use air_play_windows.Hls.{HlsSession}
use air_play_windows.Hls.Rewrite.{
  local_path, local_url, register_local, pieces, is_uri, is_local_candidate, Rewritten, in_front,
  rewrite_tag, strip_return, of_uri, rewrite_line, newline, rewrite_pieces,
  rewrite_segments_to_local,
}

-- A path that the session has given out before its counter reached `c`.
abbrev pub IsIssued : ℕ → Bytes × Bytes → Type 0
IsIssued c e = (m : ℕ) × (m < c) × (e.0 ≡ local_path m)

abbrev pub IsFresh : HlsSession → Type 0
IsFresh s = All (IsIssued s.seg_url_counter) s.seg_url_map

local_path_injective : (m n : ℕ) → local_path m ≡ local_path n → m ≡ n
unfolding local_path
local_path_injective m n h = decimal_injective m n (ap (drop 5) h)

local_path_apart : (m n : ℕ) → m < n → equal (local_path m) (local_path n) ≡ false
local_path_apart m n h = elim (Bool-cases (equal (local_path m) (local_path n))) [
  | inr apart ↦ apart
  | inl same ↦
      let one = local_path_injective m n ((equal_iff (local_path m) (local_path n)).0 same) in
      absurd (omega (arith, one))
]

lookup-IsIssued :
    (c : ℕ) (m : List (Bytes × Bytes)) → All (IsIssued c) m → lookup (local_path c) m ≡ none
unfolding lookup
lookup-IsIssued c [] h = refl
lookup-IsIssued c ((k, v) ∷ rest) ((n, below, named_by), h) =
    let apart : equal k (local_path c) ≡ false =
      ap (λ x. equal x (local_path c)) named_by ∙ local_path_apart n c below in
    ground (arith, apart, lookup-IsIssued c rest h)

IsIssued-suc : (c : ℕ) (m : List (Bytes × Bytes)) → All (IsIssued c) m → All (IsIssued (suc c)) m
IsIssued-suc c [] h = tt
IsIssued-suc c (e ∷ rest) ((n, below, named_by), h) =
    ((n, omega arith, named_by), IsIssued-suc c rest h)

assign-IsIssued :
    (c : ℕ) (path url : Bytes) (m : List (Bytes × Bytes))
    → IsIssued c (path, url)
    → All (IsIssued c) m
    → All (IsIssued c) (assign path url m)
unfolding assign
assign-IsIssued c path url [] new h = (new, tt)
assign-IsIssued c path url ((k, v) ∷ rest) new (issued, h) = elim (Bool-cases (equal k path)) [
  | inl same ↦ rw same (issued, h)
  | inr other ↦ rw other (issued, assign-IsIssued c path url rest new h)
]

-- What a rewriting must keep: the paths of the session are its own, and `path` leads to
-- `url` as before.
record Keeps (path url : Bytes) (s' : HlsSession) : Type 0 where
  fresh : IsFresh s'
  leads : lookup path s'.seg_url_map ≡ some url

register_local-IsFresh :
    (port : ℕ) (url : Bytes) (s : HlsSession) → IsFresh s → IsFresh (register_local port url s).1
unfolding register_local
register_local-IsFresh port url s fresh =
    let c = s.seg_url_counter in
    assign-IsIssued (suc c) (local_path c) url s.seg_url_map (c, omega arith, refl)
      (IsIssued-suc c s.seg_url_map fresh)

register_local-Keeps :
    (path url : Bytes) (port : ℕ) (new : Bytes) (s : HlsSession)
    → Keeps path url s
    → Keeps path url (register_local port new s).1
unfolding register_local
register_local-Keeps path url port new s h =
    let c = s.seg_url_counter in
    let free = lookup-IsIssued c s.seg_url_map h.fresh in
    let other : equal (local_path c) path ≡ false = elim (Bool-cases (equal (local_path c) path)) [
      | inr apart ↦ apart
      | inl same ↦
          let one = (equal_iff (local_path c) path).0 same in
          absurd (cc (sym free ∙ ap (λ k. lookup k s.seg_url_map) one ∙ h.leads))
    ] in
    record {
      fresh = register_local-IsFresh port new s h.fresh;
      leads = lookup-assign_other path (local_path c) new s.seg_url_map other ∙ h.leads;
    }

-- What each registration keeps, the rewriting of a line and of a playlist keep.
module _ (P : HlsSession → Type 0)
    (step : (port : ℕ) (url : Bytes) (s : HlsSession) → P s → P (register_local port url s).1) where
  rewrite_tag_kept :
      (fuel port : ℕ) (text : Bytes) (s : HlsSession)
      → P s
      → P (rewrite_tag fuel port text s).session
  unfolding rewrite_tag
  rewrite_tag_kept zero port text s h = h
  rewrite_tag_kept (suc fuel) port text s h = elim (Option-cases (split_at (codes "URI=\"") text)) [
    | inl absent ↦ rw (absent, rewrite_tag) h
    | inr ((front, behind), there) ↦ elim (Option-cases (split_char b'"' behind)) [
      | inl unclosed ↦ rw (there, rewrite_tag, unclosed) h
      | inr ((raw, after), closed) ↦ elim (Bool-cases (is_local_candidate raw)) [
        | inl replaced ↦
            rw (there, rewrite_tag, closed, replaced)
              (rewrite_tag_kept fuel port (b'"' ∷ after) (register_local port raw s).1
                (step port raw s h))
        | inr left_out ↦
            rw (there, rewrite_tag, closed, left_out) (rewrite_tag_kept fuel port after s h)
      ]
    ]
  ]

  rewrite_line_kept :
      (port : ℕ) (line : Bytes) (s : HlsSession) → P s → P (rewrite_line port line s).session
  unfolding rewrite_line
  rewrite_line_kept port line s h = elim (Bool-cases (is_uri line)) [
    | inl uri ↦ rw (uri, rewrite_line) (step port (strip_return line) s h)
    | inr tag ↦ rw (tag, rewrite_line) (rewrite_tag_kept (length line) port line s h)
  ]

  rewrite_pieces_kept :
      (port : ℕ) (ps : List (Bytes × Bool)) (s : HlsSession)
      → P s
      → P (rewrite_pieces port ps s).session
  unfolding rewrite_pieces
  rewrite_pieces_kept port [] s h = h
  rewrite_pieces_kept port ((line, ended) ∷ ps) s h =
      rewrite_pieces_kept port ps (rewrite_line port line s).session
        (rewrite_line_kept port line s h)

-- Rewriting a playlist, for example a refreshed one, leaves every local path that the session has
-- given out: it leads to the same url as before.
pub rewrite_segments_to_local_keeps :
    (port : ℕ) (expanded path url : Bytes) (s : HlsSession)
    → IsFresh s
    → lookup path s.seg_url_map ≡ some url
    → lookup path (rewrite_segments_to_local port expanded s).session.seg_url_map ≡ some url
unfolding rewrite_segments_to_local
rewrite_segments_to_local_keeps port expanded path url s fresh leads =
    let h : Keeps path url s = record { fresh = fresh; leads = leads } in
    (rewrite_pieces_kept (Keeps path url) (register_local-Keeps path url) port (pieces expanded) s
      h).leads

register_local_master :
    (port : ℕ) (url : Bytes) (s : HlsSession)
    → (register_local port url s).1.master_url ≡ s.master_url
unfolding register_local
register_local_master port url s = refl

pub rewrite_segments_to_local_master :
    (port : ℕ) (expanded : Bytes) (s : HlsSession)
    → (rewrite_segments_to_local port expanded s).session.master_url ≡ s.master_url
unfolding rewrite_segments_to_local
rewrite_segments_to_local_master port expanded s =
    rewrite_pieces_kept (λ t. t.master_url ≡ s.master_url)
      (λ n url t h. register_local_master n url t ∙ h) port (pieces expanded) s refl

joined_parts : Rewritten → Rewritten → Rewritten
joined_parts r r' = record {
  out = r.out ++ r'.out;
  session = r'.session;
  count = r.count + r'.count;
}

in_front-joined_parts :
    (text : Bytes) (n : ℕ) (r r' : Rewritten)
    → in_front text n (joined_parts r r') ≡ joined_parts (in_front text n r) r'
unfolding joined_parts
in_front-joined_parts text n r r' = ground (arith, append_assoc text r.out r'.out)

rewrite_pieces-append :
    (port : ℕ) (xs ys : List (Bytes × Bool)) (s : HlsSession)
    → rewrite_pieces port (xs ++ ys) s
      ≡ joined_parts
          (rewrite_pieces port xs s)
          (rewrite_pieces port ys (rewrite_pieces port xs s).session)
unfolding rewrite_pieces joined_parts
rewrite_pieces-append port [] ys s = ground arith
rewrite_pieces-append port ((line, ended) ∷ xs) ys s =
    let r = rewrite_line port line s in
    let first = rewrite_pieces port xs r.session in
    ap (in_front (r.out ++ newline ended) r.count) (rewrite_pieces-append port xs ys r.session)
    ∙ in_front-joined_parts (r.out ++ newline ended) r.count first
        (rewrite_pieces port ys first.session)

uri_line :
    (port : ℕ) (line : Bytes) (s : HlsSession)
    → is_uri line ≡ true
    → rewrite_line port line s ≡ of_uri (register_local port (strip_return line) s)
unfolding rewrite_line
uri_line port line s uri = rw (uri, rewrite_line) refl

rewrite_pieces-uri :
    (port : ℕ) (line : Bytes) (ended : Bool) (ys : List (Bytes × Bool)) (s : HlsSession)
    → is_uri line ≡ true
    → let (local, s') = register_local port (strip_return line) s in
      rewrite_pieces port ((line, ended) ∷ ys) s
      ≡ in_front (local ++ newline ended) 1 (rewrite_pieces port ys s')
unfolding rewrite_pieces
rewrite_pieces-uri port line ended ys s uri =
    ap
      (λ (r : Rewritten).
        in_front (r.out ++ newline ended) r.count (rewrite_pieces port ys r.session))
      (uri_line port line s uri)

register_local_leads :
    (port : ℕ) (url : Bytes) (s : HlsSession)
    → IsFresh s
    → Keeps (local_path s.seg_url_counter) url (register_local port url s).1
unfolding register_local
register_local_leads port url s fresh = record {
  fresh = register_local-IsFresh port url s fresh;
  leads = lookup-assign (local_path s.seg_url_counter) url s.seg_url_map;
}

register_local_url :
    (port : ℕ) (url : Bytes) (s : HlsSession)
    → (register_local port url s).0 ≡ local_url port (local_path s.seg_url_counter)
unfolding register_local
register_local_url port url s = refl

-- Each line of the playlist that is a url becomes a local url in its place, and at the end its path
-- leads to that line without its carriage return, whatever lines come before and after it.
pub rewrite_segments_to_local_resolves :
    (port : ℕ) (expanded line : Bytes) (ended : Bool) (xs ys : List (Bytes × Bool)) (s : HlsSession)
    → IsFresh s
    → pieces expanded ≡ xs ++ ((line, ended) ∷ ys)
    → is_uri line ≡ true
    → let r = rewrite_segments_to_local port expanded s in
      let before = rewrite_pieces port xs s in
      let path = local_path before.session.seg_url_counter in
      (lookup path r.session.seg_url_map ≡ some (strip_return line))
      × ((tail : Bytes) × (r.out ≡ before.out ++ (local_url port path ++ newline ended ++ tail)))
unfolding rewrite_segments_to_local joined_parts
rewrite_segments_to_local_resolves port expanded line ended xs ys s fresh cut uri =
    let before = rewrite_pieces port xs s in
    let fresh' = rewrite_pieces_kept IsFresh register_local-IsFresh port xs s fresh in
    let whole =
      ap (λ ps. rewrite_pieces port ps s) cut
      ∙ rewrite_pieces-append port xs ((line, ended) ∷ ys) s in
    let url = strip_return line in
    let path = local_path before.session.seg_url_counter in
    let reg = register_local port url before.session in
    let rest = rewrite_pieces port ys reg.1 in
    let whole' =
      whole ∙ ap (joined_parts before) (rewrite_pieces-uri port line ended ys before.session uri) in
    let kept =
      rewrite_pieces_kept (Keeps path url) (register_local-Keeps path url) port ys reg.1
        (register_local_leads port url before.session fresh') in
    let named : reg.0 ≡ local_url port path = register_local_url port url before.session in
    (
      ap (λ (r : Rewritten). lookup path r.session.seg_url_map) whole' ∙ kept.leads,
      (
        rest.out,
        ap (λ (r : Rewritten). r.out) whole'
            ∙ ap (λ l. before.out ++ (l ++ newline ended ++ rest.out)) named,
      ),
    )
