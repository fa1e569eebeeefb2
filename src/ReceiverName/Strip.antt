-- ===== src/ReceiverName/Strip.antt =====
-- What the stripping of spaces does.
use air_play_windows.Base.{
  ◌==◌, if◌then◌else◌, Bool-cases, Bytes, is_empty, ℕ, zero, suc, ◌≡◌, refl, ap, ◌∙◌, ◌≢◌, inl, inr,
  ◌&&◌, [], ◌∷◌, ◌++◌, arith,
}
use air_play_windows.ReceiverName.{strip_front, strip_back}

unfoldable pub spaces : ℕ → Bytes
spaces zero = []
spaces (suc n) = b' ' ∷ spaces n

-- Neither end is a space, or the text is empty.
abbrev pub StartsPlain : Bytes → Type 0
StartsPlain [] = Unit
StartsPlain (c ∷ cs) = c ≢ b' '

abbrev pub EndsPlain : Bytes → Type 0
EndsPlain [] = Unit
EndsPlain (c ∷ []) = c ≢ b' '
EndsPlain (c ∷ d ∷ cs) = EndsPlain (d ∷ cs)

pub strip_front-plain :
    (s : Bytes) → (n : ℕ) × (s ≡ spaces n ++ strip_front s) × StartsPlain (strip_front s)
unfolding strip_front spaces
strip_front-plain [] = (0, refl, tt)
strip_front-plain (c ∷ cs) =
    let (n, splits, plain) = strip_front-plain cs in
    elim (Bool-cases (c == b' ')) [
      | inl space ↦ rw space (suc n, ground arith, plain)
      | inr other ↦ rw other (0, refl, λ e. ground arith)
    ]

pub strip_back-plain :
    (s : Bytes) → (n : ℕ) × (s ≡ strip_back s ++ spaces n) × EndsPlain (strip_back s)
unfolding strip_back spaces
strip_back-plain [] = (0, refl, tt)
strip_back-plain (c ∷ cs) = go (strip_back cs) (strip_back-plain cs)
  where
    go :
        (r : Bytes)
        → (n : ℕ) × (cs ≡ r ++ spaces n) × EndsPlain r
        → (n : ℕ) × (c ∷ cs ≡ (if is_empty r && c == b' ' then [] else c ∷ r) ++ spaces n)
          × EndsPlain (if is_empty r && c == b' ' then [] else c ∷ r)
    go [] (n, splits, plain) = elim (Bool-cases (c == b' ')) [
      | inl space ↦ rw space (suc n, ground arith, tt)
      | inr other ↦ rw other (n, ap (◌∷◌ c) splits, λ e. ground arith)
    ]
    go (d ∷ r) (n, splits, plain) = (n, ap (◌∷◌ c) splits, plain)

pub strip_front-spaces : (n : ℕ) (s : Bytes) → strip_front (spaces n ++ s) ≡ strip_front s
unfolding strip_front spaces
strip_front-spaces zero s = refl
strip_front-spaces (suc n) s = strip_front-spaces n s

strip_back-all : (n : ℕ) → strip_back (spaces n) ≡ []
unfolding strip_back spaces
strip_back-all zero = refl
strip_back-all (suc n) = rw (strip_back-all n)

strip_back-cons :
    (c : ℕ) (s : Bytes) (d : ℕ) (r : Bytes) → strip_back s ≡ d ∷ r → strip_back (c ∷ s) ≡ c ∷ d ∷ r
unfolding strip_back
strip_back-cons c s d r e = rw e

strip_back_last : (c n : ℕ) → c ≢ b' ' → strip_back (c ∷ spaces n) ≡ c ∷ []
unfolding strip_back
strip_back_last c n h = simp (strip_back-all n) (ground arith)

pub strip_back-spaces : (s : Bytes) (n : ℕ) → EndsPlain s → strip_back (s ++ spaces n) ≡ s
strip_back-spaces [] n h = strip_back-all n
strip_back-spaces (c ∷ []) n h = strip_back_last c n h
strip_back-spaces (c ∷ d ∷ cs) n h =
    strip_back-cons c ((d ∷ cs) ++ spaces n) d cs (strip_back-spaces (d ∷ cs) n h)

pub strip_front_plain : (s : Bytes) → StartsPlain s → strip_front s ≡ s
unfolding strip_front
strip_front_plain [] h = refl
strip_front_plain (c ∷ cs) h = ground arith

strip_front-all : (n : ℕ) → strip_front (spaces n) ≡ []
unfolding strip_front spaces
strip_front-all zero = refl
strip_front-all (suc n) = strip_front-all n

strip_behind :
    (s : Bytes) (n : ℕ) → StartsPlain s → EndsPlain s → strip_back (strip_front (s ++ spaces n)) ≡ s
strip_behind [] n h k = ap strip_back (strip_front-all n) ∙ unfold strip_back in refl
strip_behind (c ∷ cs) n h k =
    ap strip_back (strip_front_plain (c ∷ (cs ++ spaces n)) h) ∙ strip_back-spaces (c ∷ cs) n k

-- The spaces around a text with plain ends go, and nothing else.
pub strip-spaces :
    (s : Bytes) (before behind : ℕ)
    → StartsPlain s
    → EndsPlain s
    → strip_back (strip_front (spaces before ++ (s ++ spaces behind))) ≡ s
strip-spaces s before behind h k =
    ap strip_back (strip_front-spaces before (s ++ spaces behind)) ∙ strip_behind s behind h k
