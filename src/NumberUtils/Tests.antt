-- ===== src/NumberUtils/Tests.antt =====
-- `LargestRemainder` of numberutils/numberutils.go on concrete counts, in whole percents of two more
-- decimal places.
use toolkit.NumberUtils.{
  Percentage, DecimalPercentage, sum_of, Sorter, total, set_percents, largest_remainder,
}
use toolkit.NumberUtils.Hundred.{largest_remainder-Distributes}
use toolkit.NumberUtils.Loop.{is_for, share}
use toolkit.Prelude.{
  ◌≡◌, refl, ℕ, ◌+◌, ◌*◌, ◌/◌, ◌^◌, ◌≤◌, Bool, ltb, List, [], ◌∷◌, Option, none, some, arith,
  if◌then◌else◌, map,
}

insert_by :
    (DecimalPercentage → DecimalPercentage → Bool)
    → DecimalPercentage
    → List DecimalPercentage
    → List DecimalPercentage
insert_by less x [] = x ∷ []
insert_by less x (y ∷ ys) =
    let rest = insert_by less x ys in if less y x then y ∷ rest else x ∷ y ∷ ys

sort_by :
    (DecimalPercentage → DecimalPercentage → Bool) → List DecimalPercentage → List DecimalPercentage
unfolding insert_by
sort_by less [] = []
sort_by less (x ∷ xs) = insert_by less x (sort_by less xs)

sum-insert_by :
    (f : DecimalPercentage → ℕ) (less : DecimalPercentage → DecimalPercentage → Bool)
    (x : DecimalPercentage) (xs : List DecimalPercentage)
    → sum_of f (insert_by less x xs) ≡ f x + sum_of f xs
unfolding insert_by
sum-insert_by f less x [] = refl
sum-insert_by f less x (y ∷ ys) = ground (arith, sum-insert_by f less x ys)

sum-sort_by :
    (f : DecimalPercentage → ℕ) (less : DecimalPercentage → DecimalPercentage → Bool)
    (xs : List DecimalPercentage)
    → sum_of f (sort_by less xs) ≡ sum_of f xs
unfolding sort_by
sum-sort_by f less [] = refl
sum-sort_by f less (x ∷ xs) =
    omega (arith, sum-sort_by f less xs, sum-insert_by f less x (sort_by less xs))

abbrev sorter : Sorter
sorter = record { sort_slice = sort_by; sum-sort_slice = sum-sort_by }

-- Hundredths of a percent.
abbrev quotient : ℕ → ℕ → ℕ
quotient value sum = value * 100 / sum

-- Four, two and one of seven.
abbrev sevenths : List Percentage
sevenths =
    record { value = 4; percent = 0 }
    ∷ record { value = 2; percent = 0 }
    ∷ record { value = 1; percent = 0 }
    ∷ []

largest_remainder-Distributes_example :
    (shares : List DecimalPercentage) × (largest_remainder sorter quotient 0 2 sevenths
      ≡ some shares)
    × (total shares ≡ 100 * 10 ^ 0 * 10 ^ 2)
    × ((slot : ℕ)
        → (sum_of (is_for slot) shares ≡ (if ltb slot 3 then 1 else 0))
          × (sum_of (share slot) (set_percents sorter quotient 0 2 7 0 sevenths)
              ≤ sum_of (share slot) shares))
largest_remainder-Distributes_example =
    largest_remainder-Distributes sorter quotient 0 2 6 sevenths refl (omega arith) (omega arith)

-- 57.14, 28.57 and 14.28: the one percent that is left goes to the first.
abbrev rows : Option (List DecimalPercentage) → List (ℕ × ℕ)
rows none = []
rows (some items) = map (λ item. (item.slot, item.percent)) items

four_two_one :
    rows (largest_remainder sorter quotient 0 2 sevenths) ≡ (0, 5800) ∷ (1, 2800) ∷ (2, 1400) ∷ []
unfolding largest_remainder sort_by insert_by
four_two_one = refl

-- The sum of these two values wraps to a negative number, and every percent is zero.
abbrev two_huge : List Percentage
two_huge = record { value = 2 ^ 62; percent = 0 } ∷ record { value = 2 ^ 62; percent = 0 } ∷ []

wrapped_sum : rows (largest_remainder sorter quotient 0 2 two_huge) ≡ (0, 0) ∷ (1, 0) ∷ []
unfolding largest_remainder
wrapped_sum = refl
