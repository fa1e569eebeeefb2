-- ===== src/HlsServer/Paths.antt =====
-- The request line and the path in `HlsLocalServer::handle_client`.
use air_play_windows.Base.{
  ltb, leb, ◌==◌, if◌then◌else◌, ==_iff, Bool-cases, length, drop, All, Bytes, IsByte, codes, equal,
  is_empty, split_at, next_word, ℕ, zero, suc, ◌+◌, ◌-◌, ◌*◌, ◌/◌, ◌%◌, ◌<◌, ◌≡◌, refl, ap, ◌∙◌,
  inl, inr, Bool, false, ◌&&◌, Option, none, some, [], ◌∷◌, ◌++◌, arith,
}

abbrev pub crlf : Bytes
crlf = 13 ∷ (10 ∷ [])

abbrev pub ends_with : Bytes → Bytes → Bool
ends_with s key = leb (length key) (length s) && equal (drop (length s - length key) s) key

-- The bytes that come before `recv` gives none, of which at most `room` are read.
unfoldable pub read_headers : ℕ → Bytes → Bytes → Bytes
read_headers zero headers input = headers
read_headers (suc room) headers [] = headers
read_headers (suc room) headers (b ∷ input) =
    let longer = headers ++ (b ∷ []) in
    if ends_with longer (crlf ++ crlf) then longer else read_headers room longer input

abbrev pub get_uri : Bytes × Bytes → Bytes
get_uri (uri, rest) = if is_empty (next_word rest).0 then [] else uri

abbrev pub on_method : Bytes × Bytes → Bytes
on_method (method, rest) = if equal method (codes "GET") then get_uri (next_word rest) else []

abbrev pub on_line : Option (Bytes × Bytes) → Bytes
on_line none = []
on_line (some (line, rest)) = on_method (next_word line)

-- The path before it is decoded, empty where the request line is no GET.
unfoldable pub request_path : Bytes → Bytes
request_path headers = on_line (split_at crlf headers)

unfoldable pub hex : ℕ → Option ℕ
hex c =
    if leb b'0' c && leb c b'9'
    then some (c - b'0')
    else if leb b'a' c && leb c b'f'
    then some (10 + (c - b'a'))
    else if leb b'A' c && leb c b'F'
    then some (10 + (c - b'A'))
    else none

abbrev pub both_digits : Option ℕ → Option ℕ → Option ℕ
both_digits none lo = none
both_digits (some hi) none = none
both_digits (some hi) (some lo) = some (hi * 16 + lo)

-- A `%` and two digits stand for a byte.
unfoldable pub escaped : ℕ → ℕ → ℕ → Option ℕ
escaped c h l = if c == b'%' then both_digits (hex h) (hex l) else none

unfoldable pub decode_path : Bytes → Bytes
decode_path [] = []
decode_path (c ∷ []) = c ∷ []
decode_path (c ∷ h ∷ []) = c ∷ (h ∷ [])
decode_path (c ∷ h ∷ l ∷ rest) =
    let skipped = decode_path rest in
    let kept = decode_path (h ∷ (l ∷ rest)) in
    elim (escaped c h l) [ some b ↦ b ∷ skipped | none ↦ c ∷ kept ]

-- How a player writes a path: the characters that it does not keep as a `%` and two digits.
abbrev pub digit_of : ℕ → ℕ
digit_of n = if ltb n 10 then b'0' + n else b'A' + (n - 10)

abbrev pub encode_path : (ℕ → Bool) → Bytes → Bytes
encode_path keeps [] = []
encode_path keeps (c ∷ cs) =
    if keeps c
    then c ∷ encode_path keeps cs
    else b'%' ∷ (digit_of (c / 16) ∷ (digit_of (c % 16) ∷ encode_path keeps cs))

hex-digit_of : (n : ℕ) → n < 16 → hex (digit_of n) ≡ some n
unfolding hex
hex-digit_of n h = elim (Bool-cases (ltb n 10)) [
  | inl small ↦ ground (arith, small)
  | inr large ↦ ground (arith, large)
]

escaped_plain : (c h l : ℕ) → c == b'%' ≡ false → escaped c h l ≡ none
unfolding escaped
escaped_plain c h l plain = rw plain

pub decode_path_plain :
    (c : ℕ) (s : Bytes) → c == b'%' ≡ false → decode_path (c ∷ s) ≡ c ∷ decode_path s
unfolding decode_path
decode_path_plain c [] plain = refl
decode_path_plain c (h ∷ []) plain = refl
decode_path_plain c (h ∷ l ∷ rest) plain = ground (arith, escaped_plain c h l plain)

decode_path_escape :
    (c : ℕ) (s : Bytes)
    → c < 256
    → decode_path (b'%' ∷ (digit_of (c / 16) ∷ (digit_of (c % 16) ∷ s))) ≡ c ∷ decode_path s
unfolding decode_path escaped
decode_path_escape c s byte =
    let join : c / 16 * 16 + c % 16 ≡ c = omega arith in
    ground (
      arith,
      hex-digit_of (c / 16) (omega (arith, byte)),
      hex-digit_of (c % 16) (omega arith),
      join,
    )

-- A path that is written with any set of characters kept, but `%` not, is decoded to itself.
pub decode_path-encode_path :
    (keeps : ℕ → Bool) (p : Bytes)
    → keeps b'%' ≡ false
    → All IsByte p
    → decode_path (encode_path keeps p) ≡ p
decode_path-encode_path keeps [] escapes bytes = unfold decode_path in refl
decode_path-encode_path keeps (c ∷ cs) escapes (byte, bytes) =
    let later = decode_path-encode_path keeps cs escapes bytes in
    elim (Bool-cases (keeps c)) [
      | inl kept ↦ elim (Bool-cases (c == b'%')) [
        | inl percent ↦ absurd (ground (arith, (==_iff c b'%').0 percent, kept, escapes))
        | inr plain ↦ rw kept (decode_path_plain c (encode_path keeps cs) plain ∙ ap (◌∷◌ c) later)
      ]
      | inr written ↦
          rw written (decode_path_escape c (encode_path keeps cs) byte ∙ ap (◌∷◌ c) later)
    ]
