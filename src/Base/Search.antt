-- ===== src/Base/Search.antt =====
-- `std::string::find` and its kin, as splits of the text at what is found.
use Prim.Native.Nat.{ℕ, suc, ◌+◌, ◌≤◌, ◌<◌}
use mathlib.Core.Path.{◌≡◌, refl, ap, sym, ◌∙◌}
use mathlib.Core.Bool.{Bool, true, false, not, ◌&&◌, ◌||◌}
use mathlib.Core.Option.{Option, none, some}
use mathlib.Core.List.{List, [], ◌∷◌, ◌++◌}
use mathlib.Core.Logic.{inl, inr}
use native.Mathlib.Omega.{arith}
use air_play_windows.Base.Tests.{leb, ◌==◌, if◌then◌else◌, leb→le, Bool-cases, Option-cases}
use air_play_windows.Base.Lists.{length, drop, suc_add}
use air_play_windows.Base.Text.{Bytes}

-- What stands behind a prefix.
unfoldable pub strip_prefix : Bytes → Bytes → Option Bytes
strip_prefix [] s = some s
strip_prefix (k ∷ ks) [] = none
strip_prefix (k ∷ ks) (c ∷ cs) = if k == c then strip_prefix ks cs else none

abbrev pub is_some_bytes : Option Bytes → Bool
is_some_bytes none = false
is_some_bytes (some s) = true

-- `s.rfind(prefix, 0) == 0`, `s.compare(0, n, prefix) == 0`.
abbrev pub starts_with : Bytes → Bytes → Bool
starts_with prefix s = is_some_bytes (strip_prefix prefix s)

abbrev pub cons_front : ℕ → Option (Bytes × Bytes) → Option (Bytes × Bytes)
cons_front c none = none
cons_front c (some (before, behind)) = some (c ∷ before, behind)

-- `s.find(key)`: the text before the first occurrence, and the text behind it.
unfoldable pub split_at : Bytes → Bytes → Option (Bytes × Bytes)
split_at key [] = elim (strip_prefix key []) [ some rest ↦ some ([], rest) | none ↦ none ]
split_at key (c ∷ cs) = elim (strip_prefix key (c ∷ cs)) [
  | some rest ↦ some ([], rest)
  | none ↦ cons_front c (split_at key cs)
]

-- `s.find(ch)`.
unfoldable pub split_char : ℕ → Bytes → Option (Bytes × Bytes)
split_char ch [] = none
split_char ch (c ∷ cs) = if c == ch then some ([], cs) else cons_front c (split_char ch cs)

-- `std::isspace` in the C locale.
abbrev pub is_space : ℕ → Bool
is_space c = c == 32 || (leb 9 c && leb c 13)

unfoldable pub skip_space : Bytes → Bytes
skip_space [] = []
skip_space (c ∷ cs) = if is_space c then skip_space cs else c ∷ cs

-- The longest prefix without white space, and what stands behind it.
unfoldable pub span_word : Bytes → Bytes × Bytes
span_word [] = ([], [])
span_word (c ∷ cs) =
    let (word, rest) = span_word cs in if is_space c then ([], c ∷ cs) else (c ∷ word, rest)

-- `stream >> word`: the word and the rest of the stream; the word is empty where the read fails.
abbrev pub next_word : Bytes → Bytes × Bytes
next_word s = span_word (skip_space s)

abbrev pub to_lower_char : ℕ → ℕ
to_lower_char c = if leb b'A' c && leb c b'Z' then c + 32 else c

pub strip_prefix-append :
    (k s t r : Bytes) → strip_prefix k s ≡ some r → strip_prefix k (s ++ t) ≡ some (r ++ t)
unfolding strip_prefix
strip_prefix-append [] s t r h = ground arith
strip_prefix-append (k ∷ ks) [] t r h = cc
strip_prefix-append (k ∷ ks) (c ∷ cs) t r h = ground (arith, strip_prefix-append ks cs t r)

pub strip_prefix-append_none :
    (k s t : Bytes) → length k ≤ length s → strip_prefix k s ≡ none → strip_prefix k (s ++ t) ≡ none
unfolding strip_prefix
strip_prefix-append_none [] s t le h = cc
strip_prefix-append_none (k ∷ ks) [] t le h = absurd (omega arith)
strip_prefix-append_none (k ∷ ks) (c ∷ cs) t le h = ground (arith, strip_prefix-append_none ks cs t)

pub strip_prefix-length :
    (k s r : Bytes) → strip_prefix k s ≡ some r → length s ≡ length k + length r
unfolding strip_prefix
strip_prefix-length [] s r h = ground arith
strip_prefix-length (k ∷ ks) [] r h = cc
strip_prefix-length (k ∷ ks) (c ∷ cs) r h = ground (arith, strip_prefix-length ks cs r)

pub split_at_here :
    (k : Bytes) (c : ℕ) (cs r : Bytes)
    → strip_prefix k (c ∷ cs) ≡ some r
    → split_at k (c ∷ cs) ≡ some ([], r)
unfolding split_at
split_at_here k c cs r h = rw (h, split_at)

pub split_at_next :
    (k : Bytes) (c : ℕ) (cs : Bytes)
    → strip_prefix k (c ∷ cs) ≡ none
    → split_at k (c ∷ cs) ≡ cons_front c (split_at k cs)
unfolding split_at
split_at_next k c cs h = rw (h, split_at)

pub split_at_nil : (c : ℕ) (k : Bytes) → split_at (c ∷ k) [] ≡ none
unfolding split_at strip_prefix
split_at_nil c k = refl

-- The parts that a split finds, with the key between them, are as long as the text.
pub split_at-length :
    (x : ℕ) (k s a b : Bytes)
    → split_at (x ∷ k) s ≡ some (a, b)
    → length s ≡ length a + suc (length k) + length b
split_at-length x k [] a b h = absurd (cc (split_at_nil x k))
split_at-length x k (c ∷ cs) a b h = elim (Option-cases (strip_prefix (x ∷ k) (c ∷ cs))) [
  | inl elsewhere ↦ elim (Option-cases (split_at (x ∷ k) cs)) [
    | inl nowhere ↦ absurd (ground (arith, split_at_next (x ∷ k) c cs elsewhere, nowhere))
    | inr ((a', b'), there) ↦
        ground
          (arith, split_at-length x k cs a' b' there, split_at_next (x ∷ k) c cs elsewhere, there)
  ]
  | inr (r, here) ↦
      ground (arith, strip_prefix-length (x ∷ k) (c ∷ cs) r here, split_at_here (x ∷ k) c cs r here)
]

-- More text behind a text does not change where the first occurrence is found.
pub split_at-append :
    (x : ℕ) (k s t a b : Bytes)
    → split_at (x ∷ k) s ≡ some (a, b)
    → split_at (x ∷ k) (s ++ t) ≡ some (a, b ++ t)
split_at-append x k [] t a b h = absurd (cc (split_at_nil x k))
split_at-append x k (c ∷ cs) t a b h = elim (Option-cases (strip_prefix (x ∷ k) (c ∷ cs))) [
  | inl elsewhere ↦ elim (Option-cases (split_at (x ∷ k) cs)) [
    | inl nowhere ↦ absurd (ground (arith, split_at_next (x ∷ k) c cs elsewhere, nowhere))
    | inr ((a', b'), there) ↦
        let room = split_at-length x k cs a' b' there in
        let still = strip_prefix-append_none (x ∷ k) (c ∷ cs) t (omega (arith, room)) elsewhere in
        ground (
          arith,
          split_at_next (x ∷ k) c (cs ++ t) still,
          split_at_next (x ∷ k) c cs elsewhere,
          split_at-append x k cs t a' b' there,
        )
  ]
  | inr (r, here) ↦ ground (
    arith,
    split_at_here (x ∷ k) c (cs ++ t) (r ++ t) (strip_prefix-append (x ∷ k) (c ∷ cs) t r here),
    split_at_here (x ∷ k) c cs r here,
  )
]

-- Where a text lacks the key, more text behind it can only bring one that reaches past its end.
pub split_at_beyond :
    (x : ℕ) (k s t a b : Bytes)
    → split_at (x ∷ k) s ≡ none
    → split_at (x ∷ k) (s ++ t) ≡ some (a, b)
    → length s < length a + suc (length k)
split_at_beyond x k [] t a b h g = omega arith
split_at_beyond x k (c ∷ cs) t a b h g = elim (Option-cases (strip_prefix (x ∷ k) (c ∷ cs))) [
  | inr (r, here) ↦ absurd (cc (split_at_here (x ∷ k) c cs r here))
  | inl elsewhere ↦ elim (Option-cases (strip_prefix (x ∷ k) (c ∷ cs ++ t))) [
    | inr (r, here) ↦ elim (Bool-cases (leb (suc (length k)) (suc (length cs)))) [
      | inl fits ↦ absurd (
          cc (
            strip_prefix-append_none (x ∷ k) (c ∷ cs) t
              (leb→le (suc (length k)) (suc (length cs)) fits) elsewhere))
      | inr short ↦ ground arith
    ]
    | inl still ↦ elim (Option-cases (split_at (x ∷ k) (cs ++ t))) [
      | inl nowhere ↦ absurd (ground (arith, split_at_next (x ∷ k) c (cs ++ t) still, nowhere))
      | inr ((a', b'), there) ↦ elim (Option-cases (split_at (x ∷ k) cs)) [
        | inr ((a'', b''), early) ↦
            absurd (ground (arith, split_at_next (x ∷ k) c cs elsewhere, early))
        | inl late ↦ ground (
          arith,
          split_at_beyond x k cs t a' b' late there,
          split_at_next (x ∷ k) c (cs ++ t) still,
          there,
        )
      ]
    ]
  ]
]

strip_prefix-prefix :
    (k m s r : Bytes)
    → strip_prefix (k ++ m) s ≡ some r
    → (r' : Bytes) × (strip_prefix k s ≡ some r')
unfolding strip_prefix
strip_prefix-prefix [] m s r h = (s, refl)
strip_prefix-prefix (k ∷ ks) m [] r h = absurd (cc)
strip_prefix-prefix (k ∷ ks) m (c ∷ cs) r h = elim (Bool-cases (k == c)) [
  | inl same ↦ let (r', there) = strip_prefix-prefix ks m cs r (ground arith) in (r', ground arith)
  | inr other ↦ absurd (ground arith)
]

-- A key is found no later than a longer key that begins with it.
pub split_at-prefix :
    (x : ℕ) (k m s a b : Bytes)
    → split_at (x ∷ k ++ m) s ≡ some (a, b)
    → (l : Bytes) × (r : Bytes) × (split_at (x ∷ k) s ≡ some (l, r)) × (length l ≤ length a)
split_at-prefix x k m [] a b h = absurd (cc (split_at_nil x (k ++ m)))
split_at-prefix x k m (c ∷ cs) a b h = elim (Option-cases (strip_prefix (x ∷ k) (c ∷ cs))) [
  | inr (r, here) ↦ ([], r, split_at_here (x ∷ k) c cs r here, omega arith)
  | inl elsewhere ↦ elim (Option-cases (strip_prefix (x ∷ k ++ m) (c ∷ cs))) [
    | inr (r, here) ↦ absurd (cc (strip_prefix-prefix (x ∷ k) m (c ∷ cs) r here).1)
    | inl still ↦ elim (Option-cases (split_at (x ∷ k ++ m) cs)) [
      | inl nowhere ↦ absurd (ground (arith, split_at_next (x ∷ k ++ m) c cs still, nowhere))
      | inr ((a', b'), there) ↦
          let (l, r, found, le) = split_at-prefix x k m cs a' b' there in
          (
            c ∷ l,
            r,
            ground (arith, split_at_next (x ∷ k) c cs elsewhere, found),
            ground (arith, split_at_next (x ∷ k ++ m) c cs still, there, le),
          )
    ]
  ]
]

strip_prefix_rest : (k s r : Bytes) → strip_prefix k s ≡ some r → drop (length k) s ≡ r
unfolding strip_prefix
strip_prefix_rest [] s r h = ground arith
strip_prefix_rest (k ∷ ks) [] r h = cc
strip_prefix_rest (k ∷ ks) (c ∷ cs) r h = ground (arith, strip_prefix_rest ks cs r)

drop_front :
    (c : ℕ) (cs a a' b b' : Bytes) (k : ℕ)
    → a ≡ c ∷ a'
    → b ≡ b'
    → drop (length a' + suc k) cs ≡ b'
    → drop (length a + suc k) (c ∷ cs) ≡ b
drop_front c cs a a' b b' k ha hb later =
    ap (λ l. drop (length l + suc k) (c ∷ cs)) ha
    ∙ ap (λ n. drop n (c ∷ cs)) (suc_add (length a') (suc k))
    ∙ later
    ∙ sym hb

-- What a split gives as the text behind the key stands there.
pub split_at_rest :
    (x : ℕ) (k s a b : Bytes)
    → split_at (x ∷ k) s ≡ some (a, b)
    → drop (length a + suc (length k)) s ≡ b
split_at_rest x k [] a b h = absurd (cc (split_at_nil x k))
split_at_rest x k (c ∷ cs) a b h = elim (Option-cases (strip_prefix (x ∷ k) (c ∷ cs))) [
  | inr (r, here) ↦
      ground (arith, split_at_here (x ∷ k) c cs r here, strip_prefix_rest (x ∷ k) (c ∷ cs) r here)
  | inl elsewhere ↦ elim (Option-cases (split_at (x ∷ k) cs)) [
    | inl nowhere ↦ absurd (ground (arith, split_at_next (x ∷ k) c cs elsewhere, nowhere))
    | inr ((a', b'), there) ↦
        let later = split_at_rest x k cs a' b' there in
        let front = split_at_next (x ∷ k) c cs elsewhere in
        drop_front c cs a a' b b' (length k) (ground (arith, front, there))
          (ground (arith, front, there)) later
  ]
]

-- No character of the text is `ch`.
unfoldable pub lacks : ℕ → Bytes → Bool
lacks ch [] = true
lacks ch (c ∷ cs) = not (c == ch) && lacks ch cs

pub lacks-append :
    (ch : ℕ) (s t : Bytes) → lacks ch s ≡ true → lacks ch t ≡ true → lacks ch (s ++ t) ≡ true
unfolding lacks
lacks-append ch [] t h k = k
lacks-append ch (c ∷ cs) t h k = ground (arith, h, lacks-append ch cs t, k)

pub split_char-append :
    (ch : ℕ) (s t : Bytes) → lacks ch s ≡ true → split_char ch (s ++ (ch ∷ t)) ≡ some (s, t)
unfolding split_char lacks
split_char-append ch [] t h = ground arith
split_char-append ch (c ∷ cs) t h = ground (arith, h, split_char-append ch cs t)

abbrev pub push_line : ℕ → List Bytes → List Bytes
push_line c [] = (c ∷ []) ∷ []
push_line c (l ∷ ls) = (c ∷ l) ∷ ls

-- The parts of a text between the characters `ch`; what stands behind the last one is a part if it
-- is not empty.
unfoldable pub split_on : ℕ → Bytes → List Bytes
split_on ch [] = []
split_on ch (c ∷ cs) = let rest = split_on ch cs in if c == ch then [] ∷ rest else push_line c rest

pub split_on-append :
    (ch : ℕ) (s t : Bytes) → lacks ch s ≡ true → split_on ch (s ++ (ch ∷ t)) ≡ s ∷ split_on ch t
unfolding split_on lacks
split_on-append ch [] t h = ground arith
split_on-append ch (c ∷ cs) t h = ground (arith, h, split_on-append ch cs t)

pub split_on_last :
    (ch c : ℕ) (cs : Bytes) → lacks ch (c ∷ cs) ≡ true → split_on ch (c ∷ cs) ≡ (c ∷ cs) ∷ []
unfolding split_on lacks
split_on_last ch c [] h = ground (arith, h)
split_on_last ch c (d ∷ ds) h = ground (arith, h, split_on_last ch d ds)

-- The lines that `std::getline` gives.
abbrev pub read_lines : Bytes → List Bytes
read_lines s = split_on 10 s
