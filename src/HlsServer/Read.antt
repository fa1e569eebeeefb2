-- ===== src/HlsServer/Read.antt =====
-- The request line is read whole, whatever follows it.
use air_play_windows.Base.{
  ◌==◌, if◌then◌else◌, Bool-cases, length, take, drop, length-append, take-append-drop, Bytes,
  equal_iff, lacks, ℕ, zero, suc, ◌+◌, ◌-◌, ◌≤◌, ◌≡◌, refl, sym, ap, ◌∙◌, subst, inl, inr, true, [],
  ◌∷◌, ◌++◌, append-nil, append_assoc, arith,
}
use air_play_windows.HlsServer.Paths.{crlf, ends_with, read_headers}

-- How often the character 13 stands in a text.
abbrev returns : Bytes → ℕ
returns [] = 0
returns (c ∷ cs) = if c == 13 then suc (returns cs) else returns cs

returns-append : (s t : Bytes) → returns (s ++ t) ≡ returns s + returns t
returns-append [] t = omega arith
returns-append (c ∷ s) t = elim (Bool-cases (c == 13)) [
  | inl here ↦ ground (arith, here, returns-append s t)
  | inr other ↦ ground (arith, other, returns-append s t)
]

returns-lacks : (s : Bytes) → lacks 13 s ≡ true → returns s ≡ 0
unfolding lacks
returns-lacks [] h = refl
returns-lacks (c ∷ s) h = ground (arith, h, returns-lacks s)

-- A blank line takes two of them.
ends_with-returns : (s : Bytes) → ends_with s (crlf ++ crlf) ≡ true → 2 ≤ returns s
ends_with-returns s h =
    let k = length s - 4 in
    let last : drop k s ≡ crlf ++ crlf =
      (equal_iff (drop k s) (crlf ++ crlf)).0 (ground (arith, h)) in
    let parts : returns (take k s) + returns (drop k s) ≡ returns s =
      sym (returns-append (take k s) (drop k s)) ∙ ap returns (take-append-drop k s) in
    omega (arith, parts, ap returns last)

read_headers-keeps :
    (room : ℕ) (headers w rest : Bytes)
    → returns (headers ++ w) ≤ 1
    → length w ≤ room
    → read_headers room headers (w ++ rest) ≡ read_headers (room - length w) (headers ++ w) rest
unfolding read_headers
read_headers-keeps room headers [] rest once fits =
    let same : room - 0 ≡ room = omega arith in rw (same, append-nil headers)
read_headers-keeps zero headers (b ∷ w) rest once fits = absurd (omega arith)
read_headers-keeps (suc room) headers (b ∷ w) rest once fits =
    let longer = headers ++ (b ∷ []) in
    let same : longer ++ w ≡ headers ++ (b ∷ w) = append_assoc headers (b ∷ []) w in
    elim (Bool-cases (ends_with longer (crlf ++ crlf))) [
      | inl ends ↦ absurd (
          omega
            (arith, ends_with-returns longer ends, returns-append longer w, ap returns same, once))
      | inr goes_on ↦
          let left : suc room - suc (length w) ≡ room - length w = omega arith in
          rw (goes_on, left)
            (read_headers-keeps room longer w rest (subst (λ h. returns h ≤ 1) (sym same) once)
                (omega arith)
              ∙ ap (λ h. read_headers (room - length w) h rest) same)
    ]

read_headers-more :
    (room : ℕ) (headers input : Bytes)
    → (more : Bytes) × (read_headers room headers input ≡ headers ++ more)
unfolding read_headers
read_headers-more zero headers input = ([], sym (append-nil headers))
read_headers-more (suc room) headers [] = ([], sym (append-nil headers))
read_headers-more (suc room) headers (b ∷ input) =
    let longer = headers ++ (b ∷ []) in
    let (more, is) = read_headers-more room longer input in
    elim (Bool-cases (ends_with longer (crlf ++ crlf))) [
      | inl ends ↦ (b ∷ [], rw ends)
      | inr goes_on ↦ (b ∷ more, rw goes_on (is ∙ append_assoc headers (b ∷ []) more))
    ]

-- The bytes of a line without a return, and what is read behind it.
pub read_headers-line :
    (line more : Bytes)
    → lacks 13 line ≡ true
    → length line + 2 ≤ 8192
    → (behind : Bytes) × (read_headers 8192 [] (line ++ (crlf ++ more)) ≡ line ++ (crlf ++ behind))
read_headers-line line more clean fits =
    let once : returns (line ++ crlf) ≤ 1 =
      omega (arith, returns-append line crlf, returns-lacks line clean) in
    let long : length (line ++ crlf) ≡ length line + 2 = length-append line crlf in
    let (behind, is) = read_headers-more (8192 - length (line ++ crlf)) (line ++ crlf) more in
    (
      behind,
      ap (read_headers 8192 []) (sym (append_assoc line crlf more))
          ∙ read_headers-keeps 8192 [] (line ++ crlf) more once (omega (arith, long))
          ∙ is
          ∙ append_assoc line crlf behind,
    )
