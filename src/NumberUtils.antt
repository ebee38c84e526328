-- ===== src/NumberUtils.antt =====
-- `LargestRemainder` of numberutils/numberutils.go. A decimal is a number of units of the last of its
-- `places + extra` places, of which the result keeps `places`. An `int` is its bit pattern, below
-- 2 ^ 64, and wraps as in Go; decimals are not negative, so neither is a value times 100.
-- `Float64` and the formatting of the result are left out.
pub mod Loop
pub mod Hundred
mod Tests
use toolkit.Prelude.{
  ◌≡◌, ℕ, zero, suc, ◌+◌, ◌-◌, ◌*◌, ◌/◌, ◌^◌, Bool, true, false, ltb, leb, ◌%◌, ◌&&◌, List, [], ◌∷◌,
  Option, none, some,
}
use toolkit.Prelude.Int.{ℤ, pos, negsuc, ltb_ℤ}

pub record Percentage : Type 0 where
  pub value : ℕ
  pub percent : ℕ

-- `slot` is the index of the percentage that `Percentage` points to.
pub record DecimalPercentage : Type 0 where
  pub slot : ℕ
  pub percent : ℕ
  pub remainder : ℤ

abbrev pub sum_of {ℓ} : {A : Type ℓ} → (A → ℕ) → List A → ℕ
sum_of f [] = 0
sum_of f (x ∷ xs) = f x + sum_of f xs

-- The numbers of bit patterns of an `int`.
abbrev pub int_size : ℕ
int_size = 2 ^ 64

unfoldable pub is_positive : ℕ → Bool
is_positive n = ltb 0 n && ltb n (2 ^ 63)

-- The loop that adds the values to the sum.
unfoldable pub add_values : ℕ → List Percentage → ℕ
add_values sum [] = sum
add_values sum (p ∷ ps) = add_values ((sum + p.value) % int_size) ps

abbrev pub total : List DecimalPercentage → ℕ
total = sum_of (λ item. item.percent)

-- `sort.Slice`: it rearranges, so every sum stays.
pub record Sorter : Type 0 where
  pub sort_slice :
      (DecimalPercentage → DecimalPercentage → Bool)
      → List DecimalPercentage
      → List DecimalPercentage
  pub sum-sort_slice :
      (f : DecimalPercentage → ℕ) (less : DecimalPercentage → DecimalPercentage → Bool)
      (items : List DecimalPercentage)
      → sum_of f (sort_slice less items) ≡ sum_of f items

-- `a.Sub(b)`
unfoldable pub sub : ℕ → ℕ → ℤ
sub a b = elim (leb b a) [ true ↦ pos (a - b) | false ↦ negsuc (b - a - 1) ]

-- `decimal.NewFromFloat(float64(value*100) / float64(sum))`
abbrev pub Quotient : Type 0
Quotient = ℕ → ℕ → ℕ

module _ (sorter : Sorter) (quotient : Quotient) (places extra : ℕ) where
  abbrev pub last_place : ℕ
  last_place = 10 ^ extra

  abbrev pub hundred_percent : ℕ
  hundred_percent = 100 * 10 ^ places * last_place

  unfoldable pub round_floor : ℕ → ℕ
  round_floor raw = raw / last_place * last_place

  -- The loop that sets the percents and the remainders, from the index `i` on.
  unfoldable pub set_percents : ℕ → ℕ → List Percentage → List DecimalPercentage
  unfolding round_floor sub
  set_percents sum i [] = []
  set_percents sum i (p ∷ ps) =
      let raw = quotient (p.value * 100 % int_size) sum in
      record { slot = i; percent = round_floor raw; remainder = sub raw p.percent }
      ∷ set_percents sum (i + 1) ps

  -- The percents if nothing is counted.
  unfoldable pub zero_percents : ℕ → List Percentage → List DecimalPercentage
  zero_percents i [] = []
  zero_percents i (p ∷ ps) =
      record { slot = i; percent = 0; remainder = pos 0 } ∷ zero_percents (i + 1) ps

  unfoldable pub by_remainder : DecimalPercentage → DecimalPercentage → Bool
  by_remainder a b = ltb_ℤ b.remainder a.remainder

  unfoldable pub raise_first : List DecimalPercentage → List DecimalPercentage
  raise_first [] = []
  raise_first (item ∷ items) =
      record item { percent = item.percent + last_place; remainder = pos 0 } ∷ items

  -- The loop up to 100 percent.
  unfoldable pub distribute : ℕ → ℕ → List DecimalPercentage → Option (List DecimalPercentage)
  unfolding by_remainder raise_first
  distribute zero cur_sum items = none
  distribute (suc n) cur_sum items = elim (ltb cur_sum hundred_percent) [
    | false ↦ some items
    | true ↦
        distribute n (cur_sum + last_place) (raise_first (sorter.sort_slice by_remainder items))
  ]

  -- The decimals that are written back. Each round adds a unit of the last place.
  unfoldable pub largest_remainder : List Percentage → Option (List DecimalPercentage)
  unfolding add_values is_positive set_percents zero_percents distribute
  largest_remainder ps =
      let sum = add_values 0 ps in
      elim (is_positive sum) [
        | false ↦ some (zero_percents 0 ps)
        | true ↦
            let items = set_percents sum 0 ps in
            distribute (suc (100 * 10 ^ places)) (total items) items
      ]
