-- ===== src/LoadBalance.antt =====
-- loadbalance/subset.go: the backends that a client talks to.
pub mod Rounds
mod Tests
use toolkit.Prelude.{
  ℕ, zero, suc, ◌+◌, ◌*◌, ◌/◌, ◌%◌, ◌≡◌, Bool, ◌==◌, leb, List, [], ◌∷◌, ◌++◌, Option, none, some,
  Bytes, if◌then◌else◌, length, count_if,
}

-- `rand.Seed` with a round and then `rand.Shuffle`, which only rearranges, in one call of `Subset`:
-- since go 1.24, the version of go.mod, `rand.Seed` has no effect by default, so that each call comes
-- with a shuffle of its own.
pub record Rand : Type 0 where
  pub shuffle : ℕ → List Bytes → List Bytes
  pub count_if-shuffle :
      (p : Bytes → Bool) (round : ℕ) (xs : List Bytes)
      → count_if p (shuffle round xs) ≡ count_if p xs

-- A slice: its elements, and what its array holds behind them, up to the capacity.
pub record Slice : Type 0 where
  pub items : List Bytes
  pub spare : List Bytes

abbrev pub take : ℕ → List Bytes → List Bytes
take zero xs = []
take (suc n) [] = []
take (suc n) (x ∷ xs) = x ∷ take n xs

abbrev pub drop : ℕ → List Bytes → List Bytes
drop zero xs = xs
drop (suc n) [] = []
drop (suc n) (x ∷ xs) = drop n xs

-- The quotient of the lengths, rounded up; for a positive size.
unfoldable pub subset_count : ℕ → ℕ → ℕ
subset_count n size = n / size + (if n % size == 0 then 0 else 1)

-- `backends[start : start+subsetSize]`; `none` where it panics. A slice may reach beyond its length,
-- up to its capacity.
unfoldable pub slice_from : Slice → ℕ → ℕ → Option (List Bytes)
slice_from s start size =
    let all = s.items ++ s.spare in
    if leb (start + size) (length all) then some (take size (drop start all)) else none

-- The subset at an index of the shuffled backends.
unfoldable pub take_subset : Slice → ℕ → ℕ → Option (Slice × List Bytes)
unfolding slice_from
take_subset shuffled start size = elim (slice_from shuffled start size) [
  | none ↦ none
  | some chosen ↦ some (shuffled, chosen)
]

-- `Subset`, by the number of subsets.
unfoldable pub subset_of : Rand → Slice → ℕ → ℕ → ℕ → Option (Slice × List Bytes)
unfolding take_subset
subset_of rand backends client_id subset_size count =
    if count == 0
    then none
    else take_subset (record backends { items = rand.shuffle (client_id / count) backends.items })
        (client_id % count * subset_size) subset_size

-- For a client ID that is not negative, and a positive size: the backends, which are shuffled in
-- place, and the subset. `none` is a panic, the division by zero where there is no backend included.
unfoldable pub subset : Rand → Slice → ℕ → ℕ → Option (Slice × List Bytes)
unfolding subset_count subset_of
subset rand backends client_id subset_size =
    subset_of rand backends client_id subset_size (subset_count (length backends.items) subset_size)
