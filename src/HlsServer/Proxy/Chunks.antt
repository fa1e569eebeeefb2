-- ===== src/HlsServer/Proxy/Chunks.antt =====
-- A player that reads the chunks gets the bytes that were passed on.
use air_play_windows.Base.{
  ltb, ◌==◌, if◌then◌else◌, Bool-cases, ◌>>=◌, length, take, drop, All, length-append, take-append,
  drop-append, Bytes, equal, is_empty, strip_prefix, ℕ, zero, suc, ◌+◌, ◌-◌, ◌*◌, ◌/◌, ◌%◌, ◌<◌,
  ◌≡◌, refl, ap, ◌∙◌, inl, inr, false, Option, none, some, List, [], ◌∷◌, ◌++◌, append_assoc, arith,
}
use air_play_windows.HlsServer.Paths.{crlf, hex}
use air_play_windows.HlsServer.Proxy.{hex_from, printed_hex, joined, chunked}

-- Digits of the base 16, as the number that they continue, and what stands behind them.
abbrev pub read_hex : ℕ → Bytes → ℕ × Bytes
read_hex n [] = (n, [])
read_hex n (c ∷ cs) = elim (hex c) [ some d ↦ read_hex (n * 16 + d) cs | none ↦ (n, c ∷ cs) ]

abbrev cut : ℕ → Bytes → Option (Bytes × Bytes)
cut n rest = if ltb (length rest) n then none else some (take n rest, drop n rest)

abbrev ended : Bytes → Option Bytes
ended rest = if equal rest crlf then some [] else none

-- The body that a row of chunks stands for (RFC 9112), without extensions and trailers.
abbrev pub dechunk : ℕ → Bytes → Option Bytes
dechunk zero wire = none
dechunk (suc fuel) wire =
    let (n, behind_size) = read_hex 0 wire in
    do
      rest ← strip_prefix crlf behind_size
      if n == 0 then ended rest else do
        (chunk, behind) ← cut n rest
        next ← strip_prefix crlf behind
        later ← dechunk fuel next
        some (chunk ++ later)

abbrev printed_digit : ℕ → ℕ
printed_digit d = if ltb d 10 then b'0' + d else b'a' + (d - 10)

hex-printed_digit : (d : ℕ) → d < 16 → hex (printed_digit d) ≡ some d
unfolding hex
hex-printed_digit d h = elim (Bool-cases (ltb d 10)) [
  | inl small ↦ ground (arith, small)
  | inr large ↦ ground (arith, large)
]

read_hex-digit :
    (n d : ℕ) (rest : Bytes)
    → d < 16
    → read_hex n (printed_digit d ∷ rest) ≡ read_hex (n * 16 + d) rest
read_hex-digit n d rest h = rw (read_hex, hex-printed_digit d h)

read_hex-hex_from :
    (fuel n : ℕ) (rest : Bytes) → n < fuel → read_hex 0 (hex_from fuel n ++ rest) ≡ read_hex n rest
unfolding hex_from
read_hex-hex_from zero n rest h = absurd (omega arith)
read_hex-hex_from (suc fuel) n rest h =
    let last = printed_digit (n % 16) in
    elim (Bool-cases (ltb n 16)) [
      | inl small ↦
          let same : n % 16 ≡ n = ground (arith, small) in
          let plain : 0 * 16 + n ≡ n = omega arith in
          rw (small, same)
            (read_hex-digit 0 n rest (ground (arith, small)) ∙ ap (λ k. read_hex k rest) plain)
      | inr large ↦
          let value : n / 16 * 16 + n % 16 ≡ n = omega arith in
          rw large (
            ap (read_hex 0) (append_assoc (hex_from fuel (n / 16)) (last ∷ []) rest)
            ∙ read_hex-hex_from fuel (n / 16) (last ∷ rest) (ground (arith, large))
            ∙ read_hex-digit (n / 16) (n % 16) rest (omega arith)
            ∙ ap (λ k. read_hex k rest) value)
    ]

read_hex-printed_hex :
    (n : ℕ) (rest : Bytes) → read_hex 0 (printed_hex n ++ (crlf ++ rest)) ≡ (n, crlf ++ rest)
unfolding printed_hex
read_hex-printed_hex n rest =
    read_hex-hex_from (suc n) n (crlf ++ rest) (omega arith) ∙ (unfold hex in refl)

-- The bytes of any non-empty reads, in any number, are what a player makes of the chunks, which
-- takes a round for each read and the end.
pub dechunk-chunked :
    (reads : List Bytes)
    → All (λ b. is_empty b ≡ false) reads
    → dechunk (suc (length reads)) (chunked reads) ≡ some (joined reads)
unfolding chunked joined strip_prefix
dechunk-chunked [] full = unfold hex equal in refl
dechunk-chunked ([] ∷ bs) (some_bytes, full) = absurd cc
dechunk-chunked ((c ∷ cs) ∷ bs) (some_bytes, full) =
    let b = c ∷ cs in
    let behind = crlf ++ chunked bs in
    let size : (suc (length cs) == 0) ≡ false = ground arith in
    let fits : ltb (length (b ++ behind)) (length b) ≡ false =
      ground (arith, length-append b behind) in
    rw (
      read_hex-printed_hex (length b) (b ++ behind),
      size,
      fits,
      take-append cs behind,
      drop-append cs behind,
      dechunk-chunked bs full,
    )
