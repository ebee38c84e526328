-- ===== src/LoadBalance/Tests.antt =====
-- `Subset` of loadbalance/subset.go at concrete backends.
use toolkit.LoadBalance.{Rand, Slice, subset_count, subset}
use toolkit.LoadBalance.Rounds.{IsSubsetOf, subset-IsSubsetOf, subset-last_client}
use toolkit.Prelude.{
  ◌≡◌, refl, ℕ, ◌%◌, ◌==◌, Bool, List, [], ◌∷◌, none, some, Bytes, arith, if◌then◌else◌, count_if,
}

-- Swaps the first two backends in odd rounds.
abbrev swap : List Bytes → List Bytes
swap (x ∷ y ∷ xs) = y ∷ x ∷ xs
swap xs = xs

count_if-swap : (p : Bytes → Bool) (xs : List Bytes) → count_if p (swap xs) ≡ count_if p xs
count_if-swap p [] = refl
count_if-swap p (x ∷ []) = refl
count_if-swap p (x ∷ y ∷ xs) = ground arith

abbrev in_round : ℕ → List Bytes → List Bytes
in_round round xs = if round % 2 == 1 then swap xs else xs

count_if-in_round :
    (p : Bytes → Bool) (round : ℕ) (xs : List Bytes)
    → count_if p (in_round round xs) ≡ count_if p xs
count_if-in_round p round xs = ground (arith, count_if-swap p xs)

abbrev rand : Rand
rand = record { shuffle = in_round; count_if-shuffle = count_if-in_round }

abbrev four_backends : Slice
four_backends = record { items = (1 ∷ []) ∷ (2 ∷ []) ∷ (3 ∷ []) ∷ (4 ∷ []) ∷ []; spare = [] }

abbrev three_backends : Slice
three_backends = record { items = (1 ∷ []) ∷ (2 ∷ []) ∷ (3 ∷ []) ∷ []; spare = [] }

third_client :
    subset rand four_backends 2 2
    ≡ some (
      record four_backends { items = (2 ∷ []) ∷ (1 ∷ []) ∷ (3 ∷ []) ∷ (4 ∷ []) ∷ [] },
      (2 ∷ []) ∷ (1 ∷ []) ∷ [],
    )
unfolding subset
third_client = refl

-- The last client of the second round of four backends, two by two.
subset-IsSubsetOf_example :
    (r : Slice × List Bytes) × (subset rand four_backends 3 2 ≡ some r)
    × IsSubsetOf four_backends 2 1 r
unfolding subset_count
subset-IsSubsetOf_example =
    subset-IsSubsetOf rand four_backends 3 2 1 (omega arith) refl (omega arith)

subset-last_client_example : subset rand three_backends 3 2 ≡ none
subset-last_client_example =
    subset-last_client rand three_backends 2 1 1 1 (omega arith) refl (omega arith)
