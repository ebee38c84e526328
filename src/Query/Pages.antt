-- ===== src/Query/Pages.antt =====
-- Pages of sqlext/query/query.go: `NewPage`, `Page.Order`, `Page.Limit` and `NewPageRet`.
use toolkit.Prelude.{
  ℕ, zero, suc, ◌+◌, ◌-◌, ◌*◌, ◌/◌, ◌%◌, ◌^◌, ◌<◌, ◌≡◌, ◌∙◌, ap, List, [], ◌∷◌, ◌++◌, ltb, arith,
  if◌then◌else◌,
}
use native.Mathlib.Nat.{mul-div_cancel, zero-lt-suc}
use toolkit.Prelude.Int.{ℤ, pos, negsuc}
use toolkit.Query.{Order, Page}

-- An int, by its bit pattern.
abbrev pub of_bits : ℕ → ℤ
of_bits n = let m = n % 2 ^ 64 in if ltb m (2 ^ 63) then pos m else negsuc (2 ^ 64 - 1 - m)

-- The page number as it is used: 1 for one that is not positive.
abbrev page_index : ℤ → ℕ
page_index (pos zero) = 0
page_index (pos (suc n)) = n
page_index (negsuc n) = 0

unfoldable pub new_page : ℤ → ℤ → List Order → Page
new_page page_no (pos zero) orders = record { orders = orders; offset = pos 0; size = pos 0 }
new_page page_no (pos (suc n)) orders = record {
  orders = orders;
  offset = of_bits (page_index page_no * suc n);
  size = pos (suc n);
}
new_page page_no (negsuc n) orders = record { orders = orders; offset = pos 0; size = negsuc n }

-- `P().Order` and `P().Limit`
unfoldable pub order : Order → Page → Page
order o p = record p { orders = p.orders ++ o ∷ [] }

unfoldable pub limit : ℤ → ℤ → Page → Page
limit offset size p = record p { offset = offset; size = size }

-- 1 - q
abbrev one_minus : ℕ → ℤ
one_minus zero = pos 1
one_minus (suc zero) = pos 0
one_minus (suc (suc q)) = negsuc q

-- `offset/size + 1` for a positive size; the division rounds towards 0.
abbrev page_at : ℤ → ℕ → ℤ
page_at (pos a) size = of_bits (a / size + 1)
page_at (negsuc a) size = one_minus ((a + 1) / size)

-- `NewPageRet` leaves the other fields of the struct at their zero values.
pub record PageRet : Type 0 where
  pub page_no : ℤ
  pub page_size : ℤ

unfoldable pub new_page_ret : Page → PageRet
new_page_ret p = elim p.size [
  | pos zero ↦ record { page_no = pos 1; page_size = p.size }
  | pos (suc n) ↦ record { page_no = page_at p.offset (suc n); page_size = p.size }
  | negsuc n ↦ record { page_no = pos 1; page_size = p.size }
]

of_bits-small : (n : ℕ) → n < 2 ^ 63 → of_bits n ≡ pos n
of_bits-small n small = ground arith

page_at-of_bits :
    (n s : ℕ)
    → suc n < 2 ^ 63
    → n * suc s < 2 ^ 63
    → page_at (of_bits (n * suc s)) (suc s) ≡ pos (suc n)
page_at-of_bits n s small fits =
    ap (λ o. page_at o (suc s)) (of_bits-small (n * suc s) fits)
    ∙ ap (λ q. of_bits (q + 1)) (mul-div_cancel n (zero-lt-suc s))
    ∙ of_bits-small (n + 1) (omega arith)
    ∙ ap pos (omega arith)

-- The result of a page that `NewPage` makes has the page number and the page size that it was made
-- from, for a positive number and a positive size that are ints and whose offset is one.
pub new_page_ret-new_page :
    (n s : ℕ) (orders : List Order)
    → suc n < 2 ^ 63
    → n * suc s < 2 ^ 63
    → new_page_ret (new_page (pos (suc n)) (pos (suc s)) orders)
      ≡ record { page_no = pos (suc n); page_size = pos (suc s) }
unfolding new_page_ret new_page
new_page_ret-new_page n s orders small fits =
    ap (λ k. record { page_no = k; page_size = pos (suc s) }) (page_at-of_bits n s small fits)
