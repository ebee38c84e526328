-- ===== src/NumberUtils/Hundred.antt =====
-- What `LargestRemainder` of numberutils/numberutils.go hands out.
use native.Mathlib.Nat.{add-mul}
use toolkit.NumberUtils.{
  Percentage, DecimalPercentage, sum_of, Sorter, Quotient, round_floor, set_percents, zero_percents,
  int_size, is_positive, add_values, distribute, total, largest_remainder,
}
use toolkit.Prelude.{
  ◌≡◌, refl, sym, ap, ◌∙◌, ℕ, suc, ◌+◌, ◌-◌, ◌*◌, ◌/◌, ◌%◌, ◌^◌, ◌≤◌, ◌<◌, true, false, ltb, leb,
  ◌&&◌, List, [], ◌∷◌, Option, some, arith, if◌then◌else◌, length,
}
use toolkit.NumberUtils.Loop.{is_for, share, distribute-Distributes}

module _ (sorter : Sorter) (quotient : Quotient) (places extra : ℕ) where
  -- The quotients, rounded down to the places, in units of the last of them.
  abbrev pub whole_units : ℕ → List Percentage → ℕ
  whole_units sum = sum_of (λ p. quotient (p.value * 100) sum / 10 ^ extra)

  set_percents-total :
      (sum i : ℕ) (ps : List Percentage)
      → sum_of (λ p. p.value) ps * 100 < 2 ^ 63
      → total (set_percents sorter quotient places extra sum i ps) ≡ whole_units sum ps * 10 ^ extra
  unfolding set_percents round_floor
  set_percents-total sum i [] fits = omega arith
  set_percents-total sum i (p ∷ ps) fits =
      let unit = quotient (p.value * 100) sum / 10 ^ extra in
      let kept : p.value * 100 % int_size ≡ p.value * 100 = omega (arith, fits) in
      rw (kept) (
        omega (
          arith,
          set_percents-total sum (i + 1) ps (omega (arith, fits)),
          add-mul unit (whole_units sum ps) (10 ^ extra),
        ))

  set_percents-slots :
      (slot sum i : ℕ) (ps : List Percentage)
      → sum_of (is_for slot) (set_percents sorter quotient places extra sum i ps)
        ≡ (if leb i slot && ltb slot (i + length ps) then 1 else 0)
  unfolding set_percents
  set_percents-slots slot sum i [] = ground arith
  set_percents-slots slot sum i (p ∷ ps) = ground (arith, set_percents-slots slot sum (i + 1) ps)

  set_percents-length :
      (sum i : ℕ) (ps : List Percentage)
      → length (set_percents sorter quotient places extra sum i ps) ≡ length ps
  unfolding set_percents
  set_percents-length sum i [] = refl
  set_percents-length sum i (p ∷ ps) = ap suc (set_percents-length sum (i + 1) ps)

  add_values-sum_of :
      (start : ℕ) (ps : List Percentage)
      → start + sum_of (λ p. p.value) ps < 2 ^ 63
      → add_values start ps ≡ start + sum_of (λ p. p.value) ps
  unfolding add_values
  add_values-sum_of start [] fits = omega arith
  add_values-sum_of start (p ∷ ps) fits =
      let kept : (start + p.value) % int_size ≡ start + p.value = omega (arith, fits) in
      rw (kept) (add_values-sum_of (start + p.value) ps (omega (arith, fits)) ∙ omega arith)

  largest_remainder-counted :
      (sum : ℕ) (ps : List Percentage)
      → add_values 0 ps ≡ sum
      → is_positive sum ≡ true
      → largest_remainder sorter quotient places extra ps
        ≡ distribute sorter quotient places extra
            (suc (100 * 10 ^ places))
            (total (set_percents sorter quotient places extra sum 0 ps))
            (set_percents sorter quotient places extra sum 0 ps)
  unfolding largest_remainder
  largest_remainder-counted sum ps counted positive =
      let looped : List DecimalPercentage → Option (List DecimalPercentage) = λ items.
        distribute sorter quotient places extra (suc (100 * 10 ^ places)) (total items) items in
      let zeros = zero_percents sorter quotient places extra 0 ps in
      ap
        (λ n. elim (is_positive n) [
          | false ↦ some zeros
          | true ↦ looped (set_percents sorter quotient places extra n 0 ps)
        ])
        counted
      ∙ ap
          (λ b. elim b [
            | false ↦ some zeros
            | true ↦ looped (set_percents sorter quotient places extra sum 0 ps)
          ])
          positive

  counted-largest_remainder :
      (sum : ℕ) (ps : List Percentage)
      → sum_of (λ p. p.value) ps ≡ suc sum
      → sum_of (λ p. p.value) ps * 100 < 2 ^ 63
      → largest_remainder sorter quotient places extra ps
        ≡ distribute sorter quotient places extra
            (suc (100 * 10 ^ places))
            (total (set_percents sorter quotient places extra (suc sum) 0 ps))
            (set_percents sorter quotient places extra (suc sum) 0 ps)
  unfolding is_positive
  counted-largest_remainder sum ps counted fits =
      largest_remainder-counted (suc sum) ps
        (add_values-sum_of 0 ps (omega (arith, fits)) ∙ omega (arith, counted))
        (ground (arith, counted, fits))

  pub largest_remainder-Distributes :
      (sum : ℕ) (ps : List Percentage)
      → sum_of (λ p. p.value) ps ≡ suc sum
      → sum_of (λ p. p.value) ps * 100 < 2 ^ 63
      → whole_units (suc sum) ps ≤ 100 * 10 ^ places
      → (shares : List DecimalPercentage) × (largest_remainder sorter quotient places extra ps
          ≡ some shares)
        × (total shares ≡ 100 * 10 ^ places * 10 ^ extra)
        × ((slot : ℕ)
            → (sum_of (is_for slot) shares ≡ (if ltb slot (length ps) then 1 else 0))
              × (sum_of (share slot) (set_percents sorter quotient places extra (suc sum) 0 ps)
                  ≤ sum_of (share slot) shares))
  largest_remainder-Distributes sum [] counted int_fits fits = absurd (omega (arith, counted))
  largest_remainder-Distributes sum (p ∷ ps) counted int_fits fits =
      let items = set_percents sorter quotient places extra (suc sum) 0 (p ∷ ps) in
      let whole = whole_units (suc sum) (p ∷ ps) in
      let missing = 100 * 10 ^ places - whole in
      let result =
        distribute-Distributes sorter quotient places extra missing (suc (100 * 10 ^ places))
          (total items) items (omega arith)
          (omega (arith, set_percents-length (suc sum) 0 (p ∷ ps))) refl
          (ap (λ n. n + missing * 10 ^ extra) (set_percents-total (suc sum) 0 (p ∷ ps) int_fits)
            ∙ sym (add-mul whole missing (10 ^ extra))
            ∙ ap (λ n. n * 10 ^ extra) (omega (arith, fits))) in
      (
        result.shares,
        counted-largest_remainder sum (p ∷ ps) counted int_fits ∙ result.returned,
        result.hundred,
        λ slot. (
          result.slots slot
              ∙ set_percents-slots slot (suc sum) 0 (p ∷ ps)
              ∙ ap (λ b. if b then 1 else 0) (ground arith),
          result.no_less slot,
        ),
      )
