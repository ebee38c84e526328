-- ===== src/Prelude/Counts.antt =====
-- Lists of numbers compared by how often they hold each number.
use Prim.Native.Nat.{ℕ, ◌+◌, ◌≤◌, ◌<◌}
use mathlib.Core.Path.{◌≡◌, refl}
use mathlib.Core.Bool.{Bool, true, not}
use mathlib.Core.List.{List, [], ◌∷◌}
use native.Mathlib.Omega.{arith}
use toolkit.Prelude.Tests.{◌==◌, if◌then◌else◌}
use toolkit.Prelude.Lists.{count_if, count, length}

-- Without the first occurrence.
erase_first : ℕ → List ℕ → List ℕ
erase_first a [] = []
erase_first a (x ∷ xs) = let rest = erase_first a xs in if x == a then xs else x ∷ rest

erase_first-count_if :
    (p : ℕ → Bool) (a : ℕ) (xs : List ℕ)
    → 0 < count a xs
    → count_if p (erase_first a xs) + (if p a then 1 else 0) ≡ count_if p xs
unfolding erase_first
erase_first-count_if p a [] h = absurd (omega arith)
erase_first-count_if p a (x ∷ xs) h = ground (arith, erase_first-count_if p a xs)

-- More of each number is more of those that pass a test.
pub count_if_mono :
    (p : ℕ → Bool) (xs ys : List ℕ)
    → ((a : ℕ) → count a xs ≤ count a ys)
    → count_if p xs ≤ count_if p ys
count_if_mono p [] ys h = omega arith
count_if_mono p (x ∷ xs) ys h =
    let some_x : 0 < count x ys = ground (arith, h x) in
    let rest =
      count_if_mono p xs (erase_first x ys)
        (λ a. ground (arith, h a, erase_first-count_if (λ y. y == a) x ys some_x)) in
    ground (arith, rest, erase_first-count_if p x ys some_x)

pub length-eq-count_if : (xs : List ℕ) → count_if (λ _. true) xs ≡ length xs
length-eq-count_if [] = refl
length-eq-count_if (x ∷ xs) = ground (arith, length-eq-count_if xs)

pub length_mono : (xs ys : List ℕ) → ((a : ℕ) → count a xs ≤ count a ys) → length xs ≤ length ys
length_mono xs ys h =
    omega (arith, count_if_mono (λ _. true) xs ys h, length-eq-count_if xs, length-eq-count_if ys)

split-count : (a : ℕ) (xs : List ℕ) → count a xs + count_if (λ x. not (x == a)) xs ≡ length xs
split-count a [] = refl
split-count a (x ∷ xs) = ground (arith, split-count a xs)

-- A list with no more of each number and as long holds the same.
pub count-eq_of_length :
    (xs ys : List ℕ)
    → ((a : ℕ) → count a xs ≤ count a ys)
    → length xs ≡ length ys
    → (a : ℕ) → count a xs ≡ count a ys
count-eq_of_length xs ys h e a =
    omega
      (arith, h a, split-count a xs, split-count a ys, count_if_mono (λ x. not (x == a)) xs ys h)

pub nil_of_count : (xs : List ℕ) → ((a : ℕ) → count a xs ≡ 0) → xs ≡ []
nil_of_count [] h = refl
nil_of_count (x ∷ xs) h = absurd (ground (arith, h x))
