-- ===== src/Prelude/Map.antt =====
-- A Go map as an association list with at most one entry for a key. Its order is the order in which
-- one `range` visits it.

use mathlib.Core.Path.{◌≡◌, refl}
use mathlib.Core.Bool.{Bool, true, false}
use mathlib.Core.Option.{Option, none, some}
use mathlib.Core.List.{List, [], ◌∷◌}
use native.Mathlib.Omega.{arith}
use toolkit.Prelude.Tests.{Eq, if◌then◌else◌}

module _ {ℓ} {K V : Type ℓ} ⦃e : Eq K⦄ where
  -- `m[k]`, with its second result
  unfoldable pub lookup : K → List (K × V) → Option V
  lookup k [] = none
  lookup k ((j, v) ∷ m) = if e.beq j k then some v else lookup k m

  -- `m[k] = v`
  unfoldable pub insert : K → V → List (K × V) → List (K × V)
  insert k v [] = (k, v) ∷ []
  insert k v ((j, w) ∷ m) = if e.beq j k then (k, v) ∷ m else (j, w) ∷ insert k v m

  -- `delete(m, k)`
  unfoldable pub remove : K → List (K × V) → List (K × V)
  remove k [] = []
  remove k ((j, w) ∷ m) = let rest = remove k m in if e.beq j k then rest else (j, w) ∷ rest

  pub lookup-insert :
      (k j : K) (v : V) (m : List (K × V))
      → lookup j (insert k v m) ≡ (if e.beq k j then some v else lookup j m)
  unfolding lookup insert
  lookup-insert k j v [] = refl
  lookup-insert k j v ((i, w) ∷ m) =
      ground (arith, e.beq_iff k j, e.beq_iff i k, e.beq_iff i j, lookup-insert k j v m)

  pub lookup-remove :
      (k j : K) (m : List (K × V))
      → lookup j (remove k m) ≡ (if e.beq k j then none else lookup j m)
  unfolding lookup remove
  lookup-remove k j [] = ground arith
  lookup-remove k j ((i, w) ∷ m) =
      ground (arith, e.beq_iff k j, e.beq_iff i k, e.beq_iff i j, lookup-remove k j m)

  -- `m[k]`, with the zero value for a missing key
  abbrev pub lookup_or : K → V → List (K × V) → V
  lookup_or k d m = elim (lookup k m) [ none ↦ d | some v ↦ v ]

  abbrev pub keys : List (K × V) → List K
  keys [] = []
  keys ((k, v) ∷ m) = k ∷ keys m

  -- No key stands twice.
  unfoldable pub is_unique : List (K × V) → Bool
  is_unique [] = true
  is_unique ((k, v) ∷ m) = elim (lookup k m) [ none ↦ is_unique m | some _ ↦ false ]

  pub is_unique-insert :
      (k : K) (v : V) (m : List (K × V)) → is_unique m ≡ true → is_unique (insert k v m) ≡ true
  unfolding lookup insert is_unique
  is_unique-insert k v [] u = refl
  is_unique-insert k v ((j, w) ∷ m) u =
      ground (arith, u, is_unique-insert k v m, lookup-insert k j v m, e.beq_iff k j, e.beq_iff j k)

  pub insert-lookup : (k : K) (v : V) (m : List (K × V)) → lookup k m ≡ some v → insert k v m ≡ m
  unfolding lookup insert
  insert-lookup k v [] found = ground (arith, found)
  insert-lookup k v ((j, w) ∷ m) found = ground (arith, found, e.beq_iff j k, insert-lookup k v m)
