-- ===== src/Prelude/Assoc.antt =====
-- Go maps with text keys, as association lists. The iteration order of a map is not this list's
-- order: code that ranges over a map takes the order as an argument.
use Prim.Native.Nat.{◌≤◌}
use Prim.Native.String.{String}
use mathlib.Core.Path.{◌≡◌, refl, sym}
use mathlib.Core.Bool.{Bool, true, false}
use mathlib.Core.Logic.{◌≢◌, inl, inr}
use mathlib.Core.Option.{Option, none, some}
use mathlib.Core.List.{List, [], ◌∷◌}
use native.Mathlib.Omega.{arith}
use text.Mathlib.TextEquality.{eq_iff}
use codex_ha_monitor.Prelude.Tests.{◌=?=◌, if◌then◌else◌, String-cases, Bool-cases}
use codex_ha_monitor.Prelude.Lists.{length, All, keep_if}

module _ {ℓ} {V : Type ℓ} where
  -- `v, ok := m[k]`
  unfoldable pub lookup : String → List (String × V) → Option V
  lookup key [] = none
  lookup key ((own, held) ∷ rest) = if own =?= key then some held else lookup key rest

  -- `delete(m, k)`
  unfoldable pub delete : String → List (String × V) → List (String × V)
  delete k [] = []
  delete k ((j, w) ∷ m) = if j =?= k then delete k m else (j, w) ∷ delete k m

  -- `m[k] = v`
  unfoldable pub insert : String → V → List (String × V) → List (String × V)
  insert key value [] = (key, value) ∷ []
  insert key value ((own, held) ∷ rest) =
      if own =?= key then (key, value) ∷ rest else (own, held) ∷ insert key value rest

  -- `_, ok := m[k]`
  abbrev pub has_key : String → List (String × V) → Bool
  has_key k m = elim (lookup k m) [ none ↦ false | some v ↦ true ]

  -- No key twice.
  abbrev pub KeyIsFresh : String → List (String × V) → Type 0
  KeyIsFresh k m = All (λ e. e.0 ≢ k) m

  abbrev pub IsMap : List (String × V) → Type 0
  IsMap [] = Unit
  IsMap ((k, v) ∷ m) = KeyIsFresh k m × IsMap m

  pub lookup-insert :
      (k j : String) (v : V) (m : List (String × V))
      → lookup j (insert k v m) ≡ (if k =?= j then some v else lookup j m)
  unfolding lookup insert
  lookup-insert k j v [] = refl
  lookup-insert k j v ((own, held) ∷ rest) =
      let later = lookup-insert k j v rest in
      ground (arith, eq_iff own k, eq_iff own j, eq_iff k j, later)

  pub lookup-delete :
      (k j : String) (m : List (String × V))
      → lookup j (delete k m) ≡ (if k =?= j then none else lookup j m)
  unfolding lookup delete
  lookup-delete k j [] = ground arith
  lookup-delete k j ((i, w) ∷ m) =
      ground (arith, eq_iff k j, eq_iff i k, eq_iff i j, lookup-delete k j m)

  pub lookup_fresh : (k : String) (m : List (String × V)) → KeyIsFresh k m → lookup k m ≡ none
  unfolding lookup
  lookup_fresh k [] h = refl
  lookup_fresh k ((i, w) ∷ m) h = ground (arith, eq_iff i k, lookup_fresh k m)

  insert-KeyIsFresh :
      (j k : String) (v : V) (m : List (String × V))
      → k ≢ j
      → KeyIsFresh j m
      → KeyIsFresh j (insert k v m)
  unfolding insert
  insert-KeyIsFresh j k v [] n h = (n, tt)
  insert-KeyIsFresh j k v ((i, w) ∷ m) n h = ground (arith, insert-KeyIsFresh j k v m n h.1)

  pub insert-IsMap : (k : String) (v : V) (m : List (String × V)) → IsMap m → IsMap (insert k v m)
  unfolding insert
  insert-IsMap k v [] h = (tt, tt)
  insert-IsMap k v ((i, w) ∷ m) h = elim (String-cases i k) [
    | inl (t, e) ↦ rw t (rw e at h)
    | inr (t, e) ↦ rw t (insert-KeyIsFresh i k v m (λ p. e (sym p)) h.0, insert-IsMap k v m h.1)
  ]

  delete-KeyIsFresh :
      (j k : String) (m : List (String × V)) → KeyIsFresh j m → KeyIsFresh j (delete k m)
  unfolding delete
  delete-KeyIsFresh j k [] h = tt
  delete-KeyIsFresh j k ((i, w) ∷ m) h = ground (arith, delete-KeyIsFresh j k m h.1)

  pub delete-IsMap : (k : String) (m : List (String × V)) → IsMap m → IsMap (delete k m)
  unfolding delete
  delete-IsMap k [] h = tt
  delete-IsMap k ((i, w) ∷ m) h = ground (arith, delete-KeyIsFresh i k m h.0, delete-IsMap k m h.1)

  pub length-delete-le : (k : String) (m : List (String × V)) → length (delete k m) ≤ length m
  unfolding delete
  length-delete-le k [] = omega arith
  length-delete-le k ((i, w) ∷ m) = ground (arith, length-delete-le k m)

  keep_if-KeyIsFresh :
      (keep : String × V → Bool) (j : String) (m : List (String × V))
      → KeyIsFresh j m
      → KeyIsFresh j (keep_if keep m)
  keep_if-KeyIsFresh keep j [] h = tt
  keep_if-KeyIsFresh keep j (e ∷ m) (n, h) = elim (Bool-cases (keep e)) [
    | inl b ↦ rw b (n, keep_if-KeyIsFresh keep j m h)
    | inr b ↦ rw b (keep_if-KeyIsFresh keep j m h)
  ]

  pub keep_if-IsMap :
      (keep : String × V → Bool) (m : List (String × V)) → IsMap m → IsMap (keep_if keep m)
  keep_if-IsMap keep [] h = tt
  keep_if-IsMap keep ((k, v) ∷ m) (fresh, h) = elim (Bool-cases (keep (k, v))) [
    | inl b ↦ rw b (keep_if-KeyIsFresh keep k m fresh, keep_if-IsMap keep m h)
    | inr b ↦ rw b (keep_if-IsMap keep m h)
  ]

module _ {ℓ κ} {V : Type ℓ} (P : String × V → Type κ) where
  pub insert-All :
      (k : String) (v : V) (m : List (String × V)) → P (k, v) → All P m → All P (insert k v m)
  unfolding insert
  insert-All k v [] p h = (p, tt)
  insert-All k v ((i, w) ∷ m) p (q, h) = elim (String-cases i k) [
    | inl (b, e) ↦ rw b (p, h)
    | inr (b, n) ↦ rw b (q, insert-All k v m p h)
  ]

  pub delete-All : (k : String) (m : List (String × V)) → All P m → All P (delete k m)
  unfolding delete
  delete-All k [] h = tt
  delete-All k ((i, w) ∷ m) (q, h) = elim (String-cases i k) [
    | inl (b, e) ↦ rw b (delete-All k m h)
    | inr (b, n) ↦ rw b (q, delete-All k m h)
  ]
