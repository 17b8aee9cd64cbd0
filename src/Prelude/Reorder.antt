-- ===== src/Prelude/Reorder.antt =====
-- What a reordering keeps, and what the sort keeps.
use Prim.Native.Nat.{suc}
use mathlib.Core.Path.{◌≡◌, refl, ap, ◌∙◌}
use mathlib.Core.Bool.{Bool}
use mathlib.Core.List.{List, [], ◌∷◌}
use mathlib.Core.Logic.{inl, inr}
use native.Mathlib.Omega.{arith}
use codex_ha_monitor.Prelude.Tests.{Bool-cases}
use codex_ha_monitor.Prelude.Lists.{All, length}
use codex_ha_monitor.Prelude.Sort.{place, stable_sort}

-- The same elements, in any order.
pub data Reordered {ℓ} {A : Type ℓ} : List A → List A → Type ℓ where
  emptied : Reordered [] []
  carried : (x : A) {xs ys : List A} → Reordered xs ys → Reordered (x ∷ xs) (x ∷ ys)
  swapped : (x y : A) (xs : List A) → Reordered (x ∷ y ∷ xs) (y ∷ x ∷ xs)
  joined : {xs ys zs : List A} → Reordered xs ys → Reordered ys zs → Reordered xs zs

module _ {ℓ} {A : Type ℓ} where
  pub Reordered-length : {xs ys : List A} → Reordered xs ys → length xs ≡ length ys
  Reordered-length emptied = refl
  Reordered-length (carried x d) = ap suc (Reordered-length d)
  Reordered-length (swapped x y l) = refl
  Reordered-length (joined d e) = Reordered-length d ∙ Reordered-length e

  pub Reordered-All {κ} : (P : A → Type κ) {xs ys : List A} → Reordered xs ys → All P xs → All P ys
  Reordered-All P emptied h = h
  Reordered-All P (carried x d) (p, h) = (p, Reordered-All P d h)
  Reordered-All P (swapped x y l) (p, (q, h)) = (q, (p, h))
  Reordered-All P (joined d e) h = Reordered-All P e (Reordered-All P d h)

  place-All {κ} :
      (P : A → Type κ) (before : A → A → Bool) (x : A) (ys : List A)
      → P x
      → All P ys
      → All P (place before x ys)
  unfolding place
  place-All P before x [] p h = (p, tt)
  place-All P before x (y ∷ ys) p (q, h) = elim (Bool-cases (before y x)) [
    | inl b ↦ rw (b, place) (q, place-All P before x ys p h)
    | inr b ↦ rw (b, place) (p, (q, h))
  ]

  pub stable_sort-All {κ} :
      (P : A → Type κ) (before : A → A → Bool) (xs : List A)
      → All P xs
      → All P (stable_sort before xs)
  unfolding stable_sort
  stable_sort-All P before [] h = tt
  stable_sort-All P before (x ∷ xs) (p, h) =
      place-All P before x (stable_sort before xs) p (stable_sort-All P before xs h)

  length-place :
      (before : A → A → Bool) (x : A) (ys : List A) → length (place before x ys) ≡ suc (length ys)
  unfolding place
  length-place before x [] = refl
  length-place before x (y ∷ ys) = ground (arith, length-place before x ys)

  pub length-stable_sort :
      (before : A → A → Bool) (xs : List A) → length (stable_sort before xs) ≡ length xs
  unfolding stable_sort
  length-stable_sort before [] = refl
  length-stable_sort before (x ∷ xs) =
      length-place before x (stable_sort before xs) ∙ ap suc (length-stable_sort before xs)
