-- ===== src/LoadBalance/Rounds.antt =====
-- The subset that a client gets from `Subset` (loadbalance/subset.go).
use native.Mathlib.Nat.{
  le-div_iff_mul-le, add-mul-div_right, add-mul-mod_self_right, mod-eq_of_lt, div-eq_of_lt,
}
use toolkit.LoadBalance.{
  Rand, Slice, take, drop, subset_count, slice_from, take_subset, subset_of, subset,
}
use toolkit.Prelude.{
  ◌≡◌, refl, sym, ap, ◌∙◌, ℕ, zero, suc, ◌+◌, ◌*◌, ◌/◌, ◌%◌, ◌≤◌, ◌<◌, Bool, true, false, ◌==◌,
  List, [], ◌∷◌, ◌++◌, none, some, Bytes, arith, length, length-append, count_if,
}

length-count_if : (xs : List Bytes) → length xs ≡ count_if (λ x. true) xs
length-count_if [] = refl
length-count_if (x ∷ xs) = ap suc (length-count_if xs)

length-shuffle :
    (rand : Rand) (round : ℕ) (xs : List Bytes) → length (rand.shuffle round xs) ≡ length xs
length-shuffle rand round xs =
    length-count_if (rand.shuffle round xs)
    ∙ rand.count_if-shuffle (λ x. true) round xs
    ∙ sym (length-count_if xs)

abbrev shuffled : Rand → Slice → ℕ → Slice
shuffled rand backends round = record backends { items = rand.shuffle round backends.items }

-- The elements of a list at some places in front of another list.
count_if-take :
    (p : Bytes → Bool) (size : ℕ) (xs ys : List Bytes)
    → size ≤ length xs
    → count_if p (take size (xs ++ ys)) ≤ count_if p xs
count_if-take p zero xs ys within = omega arith
count_if-take p (suc size) [] ys within = absurd (omega (arith, within))
count_if-take p (suc size) (x ∷ xs) ys within =
    ground (arith, count_if-take p size xs ys (omega (arith, within)))

count_if-drop :
    (p : Bytes → Bool) (start size : ℕ) (xs ys : List Bytes)
    → start + size ≤ length xs
    → count_if p (take size (drop start (xs ++ ys))) ≤ count_if p xs
count_if-drop p zero size xs ys within = count_if-take p size xs ys (omega (arith, within))
count_if-drop p (suc start) size [] ys within = absurd (omega (arith, within))
count_if-drop p (suc start) size (x ∷ xs) ys within =
    ground (arith, count_if-drop p start size xs ys (omega (arith, within)))

-- A list, split around the elements at some places.
take-split :
    (size : ℕ) (xs ys : List Bytes)
    → size ≤ length xs
    → (back : List Bytes) × (xs ≡ take size (xs ++ ys) ++ back)
take-split zero xs ys within = (xs, refl)
take-split (suc size) [] ys within = absurd (omega (arith, within))
take-split (suc size) (x ∷ xs) ys within =
    let (back, split) = take-split size xs ys (omega (arith, within)) in (back, ap (◌∷◌ x) split)

drop-split :
    (start size : ℕ) (xs ys : List Bytes)
    → start + size ≤ length xs
    → (front : List Bytes) × (back : List Bytes) × (xs
        ≡ front ++ (take size (drop start (xs ++ ys)) ++ back))
      × (length front ≡ start)
drop-split zero size xs ys within =
    let (back, split) = take-split size xs ys (omega (arith, within)) in ([], back, split, refl)
drop-split (suc start) size [] ys within = absurd (omega (arith, within))
drop-split (suc start) size (x ∷ xs) ys within =
    let (front, back, split, long) = drop-split start size xs ys (omega (arith, within)) in
    (x ∷ front, back, ap (◌∷◌ x) split, ap suc long)

length-take : (size : ℕ) (xs : List Bytes) → size ≤ length xs → length (take size xs) ≡ size
length-take zero xs within = refl
length-take (suc size) [] within = absurd (omega (arith, within))
length-take (suc size) (x ∷ xs) within = ap suc (length-take size xs (omega (arith, within)))

length-drop :
    (start size : ℕ) (xs : List Bytes)
    → start + size ≤ length xs
    → length (take size (drop start xs)) ≡ size
length-drop zero size xs within = length-take size xs (omega (arith, within))
length-drop (suc start) zero [] within = refl
length-drop (suc start) (suc size) [] within = absurd (omega (arith, within))
length-drop (suc start) size (x ∷ xs) within = length-drop start size xs (omega (arith, within))

slice_from-within :
    (s : Slice) (start size : ℕ)
    → start + size ≤ length s.items
    → slice_from s start size ≡ some (take size (drop start (s.items ++ s.spare)))
unfolding slice_from
slice_from-within s start size within = ground (arith, within, length-append s.items s.spare)

client_place : (round count k : ℕ) → k < count → (k + round * count) % count ≡ k
client_place round count k within =
    add-mul-mod_self_right k round count ∙ mod-eq_of_lt {n = k} {m = count} within

slice_from-beyond :
    (s : Slice) (start size : ℕ)
    → length s.items + length s.spare < start + size
    → slice_from s start size ≡ none
unfolding slice_from
slice_from-beyond s start size beyond = ground (arith, beyond, length-append s.items s.spare)

subset_of-beyond :
    (rand : Rand) (backends : Slice) (size client count place : ℕ)
    → 0 < count
    → client % count ≡ place
    → length backends.items + length backends.spare < place * size + size
    → subset_of rand backends client size count ≡ none
unfolding subset_of take_subset
subset_of-beyond rand backends size client count place positive place_eq beyond =
    let some_subset : (count == 0) ≡ false = ground (arith, positive) in
    let after = shuffled rand backends (client / count) in
    rw (some_subset, place_eq, subset_of)
      (ap (λ o. elim o [ none ↦ none | some result ↦ some (after, result) ])
        (slice_from-beyond after (place * size) size
          (omega (arith, beyond, length-shuffle rand (client / count) backends.items))))

subset_count-rest :
    (m rest size : ℕ) → 0 < rest → rest < size → subset_count (rest + m * size) size ≡ suc m
unfolding subset_count
subset_count-rest m rest size left less = ground (
  arith,
  left,
  add-mul-div_right rest m {z = size} (omega (arith, less)),
  div-eq_of_lt {n = rest} {m = size} less,
  add-mul-mod_self_right rest m size,
  mod-eq_of_lt {n = rest} {m = size} less,
)

-- Let the subset size not divide the number of backends, and the array of their slice hold fewer than
-- the missing ones behind them. The call of the last client of each round then fails.
pub subset-last_client :
    (rand : Rand) (backends : Slice) (size round m rest : ℕ)
    → 0 < rest
    → length backends.items ≡ rest + m * size
    → rest + length backends.spare < size
    → subset rand backends (m + round * suc m) size ≡ none
unfolding subset
subset-last_client rand backends size round m rest left divided missing =
    let counted : subset_count (length backends.items) size ≡ suc m =
      ap (λ n. subset_count n size) divided
      ∙ subset_count-rest m rest size left (omega (arith, missing)) in
    ap (subset_of rand backends (m + round * suc m) size) counted
    ∙ subset_of-beyond rand backends size (m + round * suc m) (suc m) m (omega arith)
        (client_place round (suc m) m (omega arith)) (omega (arith, missing, divided))

-- What a call of `Subset` leaves and returns: the backends, rearranged in place, and as many of them
-- as the size says, behind those of `place` subsets.
pub record IsSubsetOf (backends : Slice) (size place : ℕ) (r : Slice × List Bytes) : Type 0 where
  pub rearranged : (p : Bytes → Bool) → count_if p r.0.items ≡ count_if p backends.items
  pub same_spare : r.0.spare ≡ backends.spare
  pub as_many : length r.1 ≡ size
  pub stands :
      (front : List Bytes) × (back : List Bytes) × (r.0.items ≡ front ++ (r.1 ++ back))
      × (length front ≡ place * size)
  pub among : (p : Bytes → Bool) → count_if p r.1 ≤ count_if p backends.items

subset_of-IsSubsetOf :
    (rand : Rand) (backends : Slice) (client size count place : ℕ)
    → 0 < count
    → client % count ≡ place
    → place * size + size ≤ length backends.items
    → (r : Slice × List Bytes) × (subset_of rand backends client size count ≡ some r)
      × IsSubsetOf backends size place r
unfolding subset_of take_subset
subset_of-IsSubsetOf rand backends client size count place positive place_eq within =
    let some_subset : (count == 0) ≡ false = ground (arith, positive) in
    let after = shuffled rand backends (client / count) in
    let kept = length-shuffle rand (client / count) backends.items in
    let fits : place * size + size ≤ length after.items = omega (arith, within, kept) in
    let chosen = take size (drop (place * size) (after.items ++ after.spare)) in
    (
      (after, chosen),
      rw (some_subset, place_eq, subset_of)
          (ap (λ o. elim o [ none ↦ none | some result ↦ some (after, result) ])
            (slice_from-within after (place * size) size fits)),
      record {
        rearranged = λ p. rand.count_if-shuffle p (client / count) backends.items;
        same_spare = refl;
        as_many =
            length-drop (place * size) size (after.items ++ after.spare)
              (omega (arith, fits, length-append after.items after.spare));
        stands = drop-split (place * size) size after.items after.spare fits;
        among = λ p. omega (
          arith,
          count_if-drop p (place * size) size after.items after.spare fits,
          rand.count_if-shuffle p (client / count) backends.items,
        );
      },
    )

subset_count-positive : (n size : ℕ) → 0 < size → size ≤ n → 0 < subset_count n size
unfolding subset_count
subset_count-positive n size positive enough =
    omega (arith, (le-div_iff_mul-le {k = size} {x = 1} {y = n} positive).1 (omega (arith, enough)))

-- Let the subset size be positive, and let the backends reach as far as the subset of the client: the
-- remainder of its ID by the number of subsets is the number of the subset. Its call, whatever the
-- shuffle, then leaves the given backends in its slice, rearranged, and returns as many of them as the
-- subset size, in one piece, behind those of the subsets before it; so none is returned more often than
-- it was given.
pub subset-IsSubsetOf :
    (rand : Rand) (backends : Slice) (client size place : ℕ)
    → 0 < size
    → client % subset_count (length backends.items) size ≡ place
    → place * size + size ≤ length backends.items
    → (r : Slice × List Bytes) × (subset rand backends client size ≡ some r)
      × IsSubsetOf backends size place r
unfolding subset
subset-IsSubsetOf rand backends client size place positive place_eq within =
    subset_of-IsSubsetOf rand backends client size (subset_count (length backends.items) size) place
      (subset_count-positive (length backends.items) size positive (omega (arith, within))) place_eq
      within
