-- ===== src/Prelude/Sort.antt =====
-- `sort.SliceStable` with a "comes before" test: a stable insertion sort.
use Prim.Native.Nat.{ℕ, ◌≤◌}
use mathlib.Core.Bool.{Bool}
use mathlib.Core.List.{List, [], ◌∷◌, Perm}
use mathlib.Core.List.Perm
use mathlib.Core.Logic.{inl, inr}
use native.Mathlib.Omega.{arith}
use codex_ha_monitor.Prelude.Tests.{if◌then◌else◌, ltb, Bool-cases}
use codex_ha_monitor.Prelude.Lists.{All}

module _ {ℓ} {A : Type ℓ} (before : A → A → Bool) where
  -- Puts `x` in front of the first element that does not come before it.
  unfoldable pub place : A → List A → List A
  place x [] = x ∷ []
  place x (y ∷ ys) = if before y x then y ∷ place x ys else x ∷ y ∷ ys

  unfoldable pub stable_sort : List A → List A
  stable_sort [] = []
  stable_sort (x ∷ xs) = place x (stable_sort xs)

  place-perm : (x : A) (ys : List A) → Perm (place x ys) (x ∷ ys)
  unfolding place
  place-perm x [] = Perm.refl _
  place-perm x (y ∷ ys) = elim (Bool-cases (before y x)) [
    | inl e ↦ rw e (Perm.trans (Perm.cons y (place-perm x ys)) (Perm.swap x y ys))
    | inr e ↦ rw e (Perm.refl _)
  ]

  pub stable_sort-perm : (xs : List A) → Perm (stable_sort xs) xs
  unfolding stable_sort
  stable_sort-perm [] = Perm.nil
  stable_sort-perm (x ∷ xs) =
      Perm.trans (place-perm x (stable_sort xs)) (Perm.cons x (stable_sort-perm xs))

-- Newest first, and oldest first, by a time stamp.
module _ {ℓ} {A : Type ℓ} (at : A → ℕ) where
  abbrev pub IsNewestFirst : List A → Type ℓ
  IsNewestFirst [] = Unit
  IsNewestFirst (x ∷ xs) = All (λ y. at y ≤ at x) xs × IsNewestFirst xs

module _ {ℓ} {A : Type ℓ} (at : A → ℕ) where
  abbrev pub newest_first : List A → List A
  newest_first = stable_sort (λ x y. ltb (at y) (at x))

  abbrev pub oldest_first : List A → List A
  oldest_first = stable_sort (λ x y. ltb (at x) (at y))

  All-place :
      (m : ℕ) (before : A → A → Bool) (x : A) (ys : List A)
      → at x ≤ m
      → All (λ y. at y ≤ m) ys
      → All (λ y. at y ≤ m) (place before x ys)
  unfolding place
  All-place m before x [] h k = (h, tt)
  All-place m before x (y ∷ ys) h k = ground (arith, All-place m before x ys h k.1)

  All-mono : (m n : ℕ) (ys : List A) → m ≤ n → All (λ y. at y ≤ m) ys → All (λ y. at y ≤ n) ys
  All-mono m n [] h k = tt
  All-mono m n (y ∷ ys) h k = (omega arith, All-mono m n ys h k.1)

  place-IsNewestFirst :
      (x : A) (ys : List A)
      → IsNewestFirst at ys
      → IsNewestFirst at (place (λ x y. ltb (at y) (at x)) x ys)
  unfolding place
  place-IsNewestFirst x [] h = (tt, tt)
  place-IsNewestFirst x (y ∷ ys) h = elim (Bool-cases (ltb (at x) (at y))) [
    | inl e ↦ rw e (
      All-place (at y) (λ u v. ltb (at v) (at u)) x ys (ground arith) h.0,
      place-IsNewestFirst x ys h.1,
    )
    | inr e ↦ rw e ((ground arith, All-mono (at y) (at x) ys (ground arith) h.0), h)
  ]

  pub newest_first-IsNewestFirst : (xs : List A) → IsNewestFirst at (newest_first xs)
  unfolding stable_sort
  newest_first-IsNewestFirst [] = tt
  newest_first-IsNewestFirst (x ∷ xs) =
      place-IsNewestFirst x (newest_first xs) (newest_first-IsNewestFirst xs)
