-- ===== src/HlsServer/Request.antt =====
-- A request line that a player writes, and the path that is read from it.
use air_play_windows.Base.{
  ltb, ◌==◌, Bool-cases, All, Bytes, IsByte, codes, equal, strip_prefix, split_at, is_space,
  skip_space, span_word, next_word, split_at_next, lacks, lacks-append, ℕ, ◌/◌, ◌%◌, ◌<◌, ◌≡◌, refl,
  ap, ◌∙◌, inl, inr, Bool, true, false, none, some, [], ◌∷◌, ◌++◌, arith,
}
use air_play_windows.HlsServer.Paths.{
  crlf, get_uri, on_method, on_line, request_path, decode_path, digit_of, encode_path,
  decode_path_plain, decode_path-encode_path,
}

abbrev pub NoSpace : Bytes → Type 0
NoSpace s = All (λ c. is_space c ≡ false) s

span_word-append : (w t : Bytes) → NoSpace w → span_word (w ++ (32 ∷ t)) ≡ (w, 32 ∷ t)
unfolding span_word
span_word-append [] t h = refl
span_word-append (c ∷ w) t (visible, h) = rw (span_word, span_word-append w t h, visible)

next_word-append :
    (c : ℕ) (w t : Bytes) → NoSpace (c ∷ w) → next_word (c ∷ (w ++ (32 ∷ t))) ≡ (c ∷ w, 32 ∷ t)
unfolding skip_space
next_word-append c w t (visible, h) = rw visible (span_word-append (c ∷ w) t (visible, h))

skip_space_space : (s : Bytes) → next_word (32 ∷ s) ≡ next_word s
unfolding skip_space
skip_space_space s = refl

pub split_at-crlf :
    (s t : Bytes) → lacks 13 s ≡ true → split_at crlf (s ++ (crlf ++ t)) ≡ some (s, t)
unfolding lacks split_at strip_prefix
split_at-crlf [] t h = refl
split_at-crlf (c ∷ s) t h =
    let other : (c == 13) ≡ false = ground (arith, h) in
    let next : strip_prefix crlf (c ∷ (s ++ (crlf ++ t))) ≡ none = ground (arith, other) in
    split_at_next crlf c (s ++ (crlf ++ t)) next ∙ rw (split_at-crlf s t (ground (arith, h)))

-- `GET` with a path and the version.
abbrev pub request_line : Bytes → Bytes
request_line path = codes "GET" ++ (32 ∷ (path ++ (32 ∷ codes "HTTP/1.1")))

lacks-NoSpace : (s : Bytes) → NoSpace s → lacks 13 s ≡ true
unfolding lacks
lacks-NoSpace [] h = refl
lacks-NoSpace (c ∷ s) (visible, h) = ground (arith, visible, lacks-NoSpace s h)

pub lacks-request_line :
    (c : ℕ) (path : Bytes) → NoSpace (c ∷ path) → lacks 13 (request_line (c ∷ path)) ≡ true
lacks-request_line c path visible =
    let version = 32 ∷ codes "HTTP/1.1" in
    lacks-append 13 (codes "GET" ++ (32 ∷ [])) (c ∷ (path ++ version)) (unfold lacks in refl)
      (lacks-append 13 (c ∷ path) version (lacks-NoSpace (c ∷ path) visible) (unfold lacks in refl))

request_path-request_line :
    (c : ℕ) (path more : Bytes)
    → NoSpace (c ∷ path)
    → request_path (request_line (c ∷ path) ++ (crlf ++ more)) ≡ c ∷ path
unfolding request_path equal span_word skip_space
request_path-request_line c path more visible =
    let target = c ∷ (path ++ (32 ∷ codes "HTTP/1.1")) in
    ap on_line (split_at-crlf (request_line (c ∷ path)) more (lacks-request_line c path visible))
    ∙ ap on_method (next_word-append b'G' (codes "ET") target (refl, (refl, (refl, tt))))
    ∙ ap get_uri (skip_space_space target ∙ next_word-append c path (codes "HTTP/1.1") visible)

digit_of-visible : (n : ℕ) → n < 16 → is_space (digit_of n) ≡ false
digit_of-visible n h = elim (Bool-cases (ltb n 10)) [
  | inl small ↦ ground (arith, small)
  | inr large ↦ ground (arith, large)
]

pub encode_path-NoSpace :
    (keeps : ℕ → Bool) (p : Bytes)
    → ((c : ℕ) → keeps c ≡ true → is_space c ≡ false)
    → All IsByte p
    → NoSpace (encode_path keeps p)
encode_path-NoSpace keeps [] visible bytes = tt
encode_path-NoSpace keeps (c ∷ cs) visible (byte, bytes) =
    let later = encode_path-NoSpace keeps cs visible bytes in
    elim (Bool-cases (keeps c)) [
      | inl kept ↦ rw kept (visible c kept, later)
      | inr written ↦
          let high = digit_of-visible (c / 16) (omega (arith, byte)) in
          let low = digit_of-visible (c % 16) (omega arith) in
          rw written (refl, (high, (low, later)))
    ]

-- The path of a request is read as the player means it, whatever characters it escapes.
pub decode_path-request_path :
    (keeps : ℕ → Bool) (p more : Bytes)
    → keeps b'%' ≡ false
    → ((c : ℕ) → keeps c ≡ true → is_space c ≡ false)
    → All IsByte p
    → decode_path (request_path (request_line (b'/' ∷ encode_path keeps p) ++ (crlf ++ more)))
      ≡ b'/' ∷ p
decode_path-request_path keeps p more escapes visible bytes =
    ap decode_path (
      request_path-request_line b'/' (encode_path keeps p) more
        (refl, encode_path-NoSpace keeps p visible bytes))
    ∙ decode_path_plain b'/' (encode_path keeps p) refl
    ∙ ap (◌∷◌ b'/') (decode_path-encode_path keeps p escapes bytes)
