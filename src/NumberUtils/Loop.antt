-- ===== src/NumberUtils/Loop.antt =====
-- The loop of `LargestRemainder` (numberutils/numberutils.go) up to 100 percent.
use native.Mathlib.Nat.{one-le-pow, add-mul}
use toolkit.NumberUtils.{
  DecimalPercentage, sum_of, Sorter, Quotient, hundred_percent, by_remainder, raise_first,
  distribute, total,
}
use toolkit.Prelude.{
  ◌≡◌, refl, sym, ap, ◌∙◌, ℕ, zero, suc, ◌+◌, ◌*◌, ◌^◌, ◌≤◌, ◌<◌, true, false, ltb, ◌==◌, List, [],
  ◌∷◌, Option, some, arith, if◌then◌else◌, length,
}

-- Whether an item is for a slot, as a number.
abbrev pub is_for : ℕ → DecimalPercentage → ℕ
is_for slot item = if item.slot == slot then 1 else 0

-- The percent of a slot.
abbrev pub share : ℕ → DecimalPercentage → ℕ
share slot item = if item.slot == slot then item.percent else 0

module _ (sorter : Sorter) (quotient : Quotient) (places extra : ℕ) where
  abbrev sorted : List DecimalPercentage → List DecimalPercentage
  sorted = sorter.sort_slice (by_remainder sorter quotient places extra)

  abbrev raised : List DecimalPercentage → List DecimalPercentage
  raised items = raise_first sorter quotient places extra (sorted items)

  raise_first-total :
      (items : List DecimalPercentage)
      → 0 < length items
      → total (raise_first sorter quotient places extra items) ≡ total items + 10 ^ extra
  unfolding raise_first
  raise_first-total [] filled = absurd (omega (arith, filled))
  raise_first-total (item ∷ items) filled = omega arith

  raise_first-slots :
      (slot : ℕ) (items : List DecimalPercentage)
      → sum_of (is_for slot) (raise_first sorter quotient places extra items)
        ≡ sum_of (is_for slot) items
  unfolding raise_first
  raise_first-slots slot [] = refl
  raise_first-slots slot (item ∷ items) = refl

  raise_first-share :
      (slot : ℕ) (items : List DecimalPercentage)
      → sum_of (share slot) items
        ≤ sum_of (share slot) (raise_first sorter quotient places extra items)
  unfolding raise_first
  raise_first-share slot [] = omega arith
  raise_first-share slot (item ∷ items) = ground arith

  sum_of-one : (items : List DecimalPercentage) → sum_of (λ item. 1) items ≡ length items
  sum_of-one [] = refl
  sum_of-one (item ∷ items) = omega (arith, sum_of-one items)

  raise_first-length :
      (items : List DecimalPercentage)
      → length (raise_first sorter quotient places extra items) ≡ length items
  unfolding raise_first
  raise_first-length [] = refl
  raise_first-length (item ∷ items) = refl

  sorted-length : (items : List DecimalPercentage) → length (sorted items) ≡ length items
  sorted-length items =
      sym (sum_of-one (sorted items))
      ∙ sorter.sum-sort_slice (λ item. 1) (by_remainder sorter quotient places extra) items
      ∙ sum_of-one items

  raised-total :
      (items : List DecimalPercentage)
      → 0 < length items
      → total (raised items) ≡ total items + 10 ^ extra
  raised-total items filled =
      raise_first-total (sorted items) (omega (arith, filled, sorted-length items))
      ∙ ap (λ n. n + 10 ^ extra)
          (sorter.sum-sort_slice (λ item. item.percent) (by_remainder sorter quotient places extra)
            items)

  raised-slots :
      (slot : ℕ) (items : List DecimalPercentage)
      → sum_of (is_for slot) (raised items) ≡ sum_of (is_for slot) items
  raised-slots slot items =
      raise_first-slots slot (sorted items)
      ∙ sorter.sum-sort_slice (is_for slot) (by_remainder sorter quotient places extra) items

  raised-share :
      (slot : ℕ) (items : List DecimalPercentage)
      → sum_of (share slot) items ≤ sum_of (share slot) (raised items)
  raised-share slot items =
      let kept =
        sorter.sum-sort_slice (share slot) (by_remainder sorter quotient places extra) items in
      omega (arith, kept, raise_first-share slot (sorted items))

  -- What the loop makes of some items: 100 percent for the same slots, and no slot loses.
  pub record Distributes (items : List DecimalPercentage) (result : Option (List DecimalPercentage))
      : Type 0 where
    pub shares : List DecimalPercentage
    pub returned : result ≡ some shares
    pub hundred : total shares ≡ 100 * 10 ^ places * 10 ^ extra
    pub slots : (slot : ℕ) → sum_of (is_for slot) shares ≡ sum_of (is_for slot) items
    pub no_less : (slot : ℕ) → sum_of (share slot) items ≤ sum_of (share slot) shares

  distribute-stops :
      (fuel cur : ℕ) (items : List DecimalPercentage)
      → ltb cur (hundred_percent sorter quotient places extra) ≡ false
      → distribute sorter quotient places extra (suc fuel) cur items ≡ some items
  unfolding distribute
  distribute-stops fuel cur items reached =
      ap
        (λ b. elim b [
          | false ↦ some items
          | true ↦ distribute sorter quotient places extra fuel (cur + 10 ^ extra) (raised items)
        ])
        reached

  distribute-goes_on :
      (fuel cur : ℕ) (items : List DecimalPercentage)
      → ltb cur (hundred_percent sorter quotient places extra) ≡ true
      → distribute sorter quotient places extra (suc fuel) cur items
        ≡ distribute sorter quotient places extra fuel (cur + 10 ^ extra) (raised items)
  unfolding distribute
  distribute-goes_on fuel cur items below =
      ap
        (λ b. elim b [
          | false ↦ some items
          | true ↦ distribute sorter quotient places extra fuel (cur + 10 ^ extra) (raised items)
        ])
        below

  pub distribute-Distributes :
      (missing fuel cur : ℕ) (items : List DecimalPercentage)
      → missing < fuel
      → 0 < length items
      → total items ≡ cur
      → cur + missing * 10 ^ extra ≡ 100 * 10 ^ places * 10 ^ extra
      → Distributes items (distribute sorter quotient places extra fuel cur items)
  distribute-Distributes missing zero cur items enough filled cur_eq left =
      absurd (omega (arith, enough))
  distribute-Distributes zero (suc fuel) cur items enough filled cur_eq left = record {
    shares = items;
    returned = distribute-stops fuel cur items (ground (arith, left));
    hundred = omega (arith, cur_eq, left);
    slots = λ slot. refl;
    no_less = λ slot. omega arith;
  }
  distribute-Distributes (suc missing) (suc fuel) cur items enough filled cur_eq left =
      let unit : 1 ≤ 10 ^ extra = one-le-pow extra 10 (omega arith) in
      let rest =
        distribute-Distributes missing fuel (cur + 10 ^ extra) (raised items)
          (omega (arith, enough))
          (omega (arith, filled, raise_first-length (sorted items), sorted-length items))
          (raised-total items filled ∙ ap (λ n. n + 10 ^ extra) cur_eq)
          (omega (arith, left, add-mul 1 missing (10 ^ extra))) in
      record {
        shares = rest.shares;
        returned =
            distribute-goes_on fuel cur items
              (ground (arith, left, unit, add-mul 1 missing (10 ^ extra)))
            ∙ rest.returned;
        hundred = rest.hundred;
        slots = λ slot. rest.slots slot ∙ raised-slots slot items;
        no_less = λ slot. omega (arith, rest.no_less slot, raised-share slot items);
      }
