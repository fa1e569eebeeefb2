-- ===== src/Base/Maps.antt =====
-- `std::unordered_map` with strings as keys, as a list of pairs. The order of the list is the order
-- of iteration, which the program does not rely on.
use mathlib.Core.Path.{◌≡◌, refl, ap, ◌∙◌}
use mathlib.Core.Bool.{false}
use mathlib.Core.Option.{Option, none, some}
use mathlib.Core.Logic.{inl, inr}
use mathlib.Core.List.{List, [], ◌∷◌}
use native.Mathlib.Omega.{arith}
use air_play_windows.Base.Tests.{if◌then◌else◌, Bool-cases}
use air_play_windows.Base.Text.{Bytes, equal, equal_iff, equal_refl}

module _ {ℓ} {A : Type ℓ} where
  -- `find`.
  unfoldable pub lookup : Bytes → List (Bytes × A) → Option A
  lookup key [] = none
  lookup key ((k, v) ∷ m) = if equal k key then some v else lookup key m

  -- `m[key] = value`.
  unfoldable pub assign : Bytes → A → List (Bytes × A) → List (Bytes × A)
  assign key value [] = (key, value) ∷ []
  assign key value ((k, v) ∷ m) =
      if equal k key then (k, value) ∷ m else (k, v) ∷ assign key value m

  -- `erase`; a map has a key once at most.
  unfoldable pub erase : Bytes → List (Bytes × A) → List (Bytes × A)
  erase key [] = []
  erase key ((k, v) ∷ m) = let rest = erase key m in if equal k key then rest else (k, v) ∷ rest

  pub lookup-assign :
      (key : Bytes) (v : A) (m : List (Bytes × A)) → lookup key (assign key v m) ≡ some v
  unfolding lookup assign
  lookup-assign key v [] = rw (equal_refl key)
  lookup-assign key v ((k, w) ∷ m) = elim (Bool-cases (equal k key)) [
    | inl same ↦ ground (arith, same)
    | inr other ↦ ground (arith, other, lookup-assign key v m)
  ]

  pub lookup-assign_other :
      (key other : Bytes) (v : A) (m : List (Bytes × A))
      → equal other key ≡ false
      → lookup key (assign other v m) ≡ lookup key m
  unfolding lookup assign
  lookup-assign_other key other v [] h = rw h
  lookup-assign_other key other v ((k, w) ∷ m) h = elim (Bool-cases (equal k other)) [
    | inl same ↦
        let off : equal k key ≡ false = ap (λ x. equal x key) ((equal_iff k other).0 same) ∙ h in
        ground (arith, same, h, off)
    | inr apart ↦ ground (arith, apart, lookup-assign_other key other v m h)
  ]

  pub lookup-erase : (key : Bytes) (m : List (Bytes × A)) → lookup key (erase key m) ≡ none
  unfolding lookup erase
  lookup-erase key [] = refl
  lookup-erase key ((k, w) ∷ m) = elim (Bool-cases (equal k key)) [
    | inl same ↦ ground (arith, same, lookup-erase key m)
    | inr apart ↦ ground (arith, apart, lookup-erase key m)
  ]
