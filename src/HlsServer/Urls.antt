-- ===== src/HlsServer/Urls.antt =====
-- `rewrite_urls` replaces every url of the sender's host, and nothing else.
use air_play_windows.Base.{
  leb, Bool-cases, Option-cases, length, All, length-append, Bytes, codes, strip_prefix, cons_front,
  split_at, strip_prefix-append_none, split_at_here, split_at_next, lacks, decimal, ℕ, zero, suc,
  ◌≤◌, ◌<◌, ◌≡◌, refl, ap, ◌∙◌, inl, inr, true, none, some, List, [], ◌∷◌, ◌++◌, arith,
}
use air_play_windows.HlsServer.{mlhls, rewrite_from, rewrite_urls}

-- A key whose first character does not come again cannot begin inside itself.
strip_prefix-overlap :
    (x : ℕ) (k s rest : Bytes)
    → lacks x k ≡ true
    → length s < length k
    → strip_prefix k (s ++ (x ∷ rest)) ≡ none
unfolding strip_prefix lacks
strip_prefix-overlap x [] s rest h short = absurd (omega arith)
strip_prefix-overlap x (c ∷ k) [] rest h short = ground (arith, h)
strip_prefix-overlap x (c ∷ k) (b ∷ s) rest h short =
    ground (arith, h, strip_prefix-overlap x k s rest, short)

not_here :
    (k : Bytes) (c : ℕ) (cs : Bytes)
    → split_at k (c ∷ cs) ≡ none
    → (strip_prefix k (c ∷ cs) ≡ none) × (split_at k cs ≡ none)
not_here k c cs without = elim (Option-cases (strip_prefix k (c ∷ cs))) [
  | inr (r, here) ↦ absurd (cc (split_at_here k c cs r here, without))
  | inl elsewhere ↦ elim (Option-cases (split_at k cs)) [
    | inl nowhere ↦ (elsewhere, nowhere)
    | inr (split, there) ↦ absurd (ground (arith, split_at_next k c cs elsewhere, there, without))
  ]
]

strip_prefix-short :
    (x : ℕ) (k : Bytes) (c : ℕ) (cs rest : Bytes)
    → lacks x k ≡ true
    → length cs < length k
    → strip_prefix (x ∷ k) (c ∷ (cs ++ (x ∷ rest))) ≡ none
unfolding strip_prefix
strip_prefix-short x k c cs rest once short =
    ground (arith, strip_prefix-overlap x k cs rest once short)

pub split_at-lacking :
    (x : ℕ) (k s rest : Bytes)
    → lacks x k ≡ true
    → split_at (x ∷ k) s ≡ none
    → strip_prefix (x ∷ k) (x ∷ (k ++ rest)) ≡ some rest
    → split_at (x ∷ k) (s ++ (x ∷ (k ++ rest))) ≡ some (s, rest)
split_at-lacking x k [] rest once without here = split_at_here (x ∷ k) x (k ++ rest) rest here
split_at-lacking x k (c ∷ cs) rest once without here =
    let (elsewhere, later) = not_here (x ∷ k) c cs without in
    let still : strip_prefix (x ∷ k) (c ∷ (cs ++ (x ∷ (k ++ rest)))) ≡ none =
      elim (Bool-cases (leb (length (x ∷ k)) (length (c ∷ cs)))) [
        | inl fits ↦
            strip_prefix-append_none (x ∷ k) (c ∷ cs) (x ∷ (k ++ rest)) (ground (arith, fits))
              elsewhere
        | inr short ↦ strip_prefix-short x k c cs (k ++ rest) once (ground (arith, short))
      ] in
    split_at_next (x ∷ k) c (cs ++ (x ∷ (k ++ rest))) still
    ∙ ap (cons_front c) (split_at-lacking x k cs rest once later here)

-- Texts with a separator between them.
abbrev pub spread : Bytes → Bytes → List Bytes → Bytes
spread key t [] = t
spread key t (u ∷ us) = t ++ (key ++ spread key u us)

abbrev pub Lacks : Bytes → Bytes → Type 0
Lacks key t = split_at key t ≡ none

split_at-mlhls :
    (t rest : Bytes) → Lacks mlhls t → split_at mlhls (t ++ (mlhls ++ rest)) ≡ some (t, rest)
unfolding mlhls lacks strip_prefix
split_at-mlhls t rest without =
    split_at-lacking b'm' (codes "lhls://localhost/") t rest refl without refl

rewrite_from-spread :
    (fuel : ℕ) (to t : Bytes) (us : List Bytes)
    → length us < fuel
    → Lacks mlhls t
    → All (Lacks mlhls) us
    → rewrite_from fuel to (spread mlhls t us) ≡ spread to t us
unfolding rewrite_from
rewrite_from-spread zero to t us enough without all = absurd (omega arith)
rewrite_from-spread (suc fuel) to t [] enough without all = rw (rewrite_from, without)
rewrite_from-spread (suc fuel) to t (u ∷ us) enough without (next, all) = rw (
  rewrite_from,
  split_at-mlhls t (spread mlhls u us) without,
  rewrite_from-spread fuel to u us (omega arith) next all,
)

length-spread :
    (key t : Bytes) (us : List Bytes) → 1 ≤ length key → length us ≤ length (spread key t us)
length-spread key t [] h = omega arith
length-spread key t (u ∷ us) h = omega (
  arith,
  length-append t (key ++ spread key u us),
  length-append key (spread key u us),
  length-spread key u us h,
  h,
)

-- Of a row of texts without `mlhls://localhost/` and with that between them, the server makes the
-- same texts with its own address between them.
pub rewrite_urls-spread :
    (port : ℕ) (t : Bytes) (us : List Bytes)
    → Lacks mlhls t
    → All (Lacks mlhls) us
    → rewrite_urls port (spread mlhls t us)
      ≡ spread (codes "http://localhost:" ++ (decimal port ++ codes "/")) t us
unfolding rewrite_urls
rewrite_urls-spread port t us without all =
    rewrite_from-spread (suc (length (spread mlhls t us)))
      (codes "http://localhost:" ++ (decimal port ++ codes "/")) t us
      (omega (arith, length-spread mlhls t us (unfold mlhls in omega arith))) without all
