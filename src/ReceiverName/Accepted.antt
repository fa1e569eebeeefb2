-- ===== src/ReceiverName/Accepted.antt =====
-- Which names are accepted, and what becomes of them.
use air_play_windows.Base.{
  ltb, Bool-cases, length, All, length-append, Bytes, IsByte, ℕ, suc, ◌≤◌, ◌≡◌, refl, ap, ◌∙◌,
  subst, ◌⊎◌, inl, inr, true, false, List, [], ◌∷◌, ◌++◌, arith,
}
use air_play_windows.ReceiverName.{strip_front, strip_back, is_valid, normalize_receiver_name}
use air_play_windows.ReceiverName.Strip.{
  spaces, StartsPlain, EndsPlain, strip_front-plain, strip_back-plain, strip-spaces,
}
use air_play_windows.ReceiverName.Utf8.{
  IsAllowed, encode, encode_all, is_valid-encode_all, is_valid_sound,
}

-- A name in its final form: at most 50 bytes of UTF-8 with no control character, dot or backslash,
-- and no space at either end.
pub record IsName (name : Bytes) : Type 0 where
  pub points : List ℕ
  pub allowed : All IsAllowed points
  pub encoded : name ≡ encode_all points
  pub short : length name ≤ 50
  pub starts : StartsPlain name
  pub ends : EndsPlain name

All-part : (xs ys zs : Bytes) → All IsByte (xs ++ (ys ++ zs)) → All IsByte ys
All-part [] [] zs h = tt
All-part [] (y ∷ ys) zs h = (h.0, All-part [] ys zs h.1)
All-part (x ∷ xs) ys zs h = All-part xs ys zs h.1

StartsPlain-prefix : (s t : Bytes) → StartsPlain (s ++ t) → StartsPlain s
StartsPlain-prefix [] t h = tt
StartsPlain-prefix (c ∷ s) t h = h

-- The length of a row of code points is at most that of their encodings.
length-encode : (v : ℕ) → 1 ≤ length (encode v)
unfolding encode
length-encode v = ground arith

length-encode_all : (vs : List ℕ) → length vs ≤ length (encode_all vs)
unfolding encode_all
length-encode_all [] = omega arith
length-encode_all (v ∷ vs) =
    omega (arith, length-encode v, length-encode_all vs, length-append (encode v) (encode_all vs))

-- Every name in its final form, with any number of spaces before and behind it, is accepted, and
-- the result is the name.
pub normalize_receiver_name_complete :
    (name : Bytes) (before behind : ℕ)
    → IsName name
    → normalize_receiver_name (spaces before ++ (name ++ spaces behind)) ≡ name
unfolding normalize_receiver_name
normalize_receiver_name_complete name before behind h =
    let fits : ltb 50 (length name) ≡ false = ground (arith, h.short) in
    let good : is_valid (suc (length name)) name ≡ true = rw (h.encoded) (
      is_valid-encode_all h.points (suc (length (encode_all h.points))) h.allowed
        (omega (arith, length-encode_all h.points))) in
    rw (strip-spaces name before behind h.starts h.ends, fits, good)

IsName-form :
    (name : Bytes)
    → All IsByte name
    → is_valid (suc (length name)) name ≡ true
    → length name ≤ 50
    → StartsPlain name
    → EndsPlain name
    → IsName name
IsName-form name bytes good short starts ends =
    let (vs, allowed, same) = is_valid_sound (suc (length name)) name bytes good in
    record {
      points = vs;
      allowed = allowed;
      encoded = same;
      short = short;
      starts = starts;
      ends = ends;
    }

splits :
    (input : Bytes) (n k : ℕ)
    → input ≡ spaces n ++ strip_front input
    → strip_front input ≡ strip_back (strip_front input) ++ spaces k
    → input ≡ spaces n ++ (strip_back (strip_front input) ++ spaces k)
splits input n k front back = front ∙ ap (λ z. spaces n ++ z) back

-- On any input of bytes the result is empty, or it is a name in its final form and the input is
-- that name with spaces before and behind it.
pub normalize_receiver_name_sound :
    (input : Bytes)
    → All IsByte input
    → (normalize_receiver_name input ≡ [])
      ⊎ (IsName (normalize_receiver_name input)
          × ((before : ℕ) × (behind : ℕ) × (input
                ≡ spaces before ++ (normalize_receiver_name input ++ spaces behind))))
unfolding normalize_receiver_name
normalize_receiver_name_sound input h =
    let (n, front, starts) = strip_front-plain input in
    let (k, back, ends) = strip_back-plain (strip_front input) in
    let name = strip_back (strip_front input) in
    elim (Bool-cases (ltb 50 (length name))) [
      | inl long ↦ rw long (inl refl)
      | inr short ↦ elim (Bool-cases (is_valid (suc (length name)) name)) [
        | inl good ↦
            rw (short, good)
              (inr (
                IsName-form name
                    (All-part (spaces n) name (spaces k)
                      (subst (All IsByte) (splits input n k front back) h))
                    good (ground arith)
                    (StartsPlain-prefix name (spaces k) (subst StartsPlain back starts)) ends,
                (n, k, splits input n k front back),
              ))
        | inr bad ↦ rw (short, bad) (inl refl)
      ]
    ]
