-- ===== src/Query/Marks.antt =====
-- The placeholders in the parts of the SQL text that sqlext/query/query.go builds.
use toolkit.Prelude.{
  ℕ, ◌+◌, ◌≡◌, refl, ◌∙◌, Bool, true, ◌&&◌, ◌==◌, List, [], ◌∷◌, ◌++◌, some, Bytes,
  bytes_eq_instance, arith, length, count_if, count_if-append, Bool-cases, Option-cases, inl, inr,
}
use toolkit.Prelude.Int.{ltb_ℤ, pos}
use toolkit.Prelude.Text.{trim_space, trim_space-count, cut}
use toolkit.Query.{
  ArithSymbol, arith_symbol_text, Sort, sort_text, Passed, SqlText, is_empty, Criteria, list_args,
  join_placeholders, quoted, is_list_test, tested, criteria_sql, Order, Page, order_sql,
  more_orders, orders_sql, page_sql,
}

abbrev pub is_mark : ℕ → Bool
is_mark b = b == b'?'

abbrev pub marks : Bytes → ℕ
marks s = count_if is_mark s

-- The text that the caller put in has no placeholder.
abbrev pub order_is_plain : Order → Bool
order_is_plain o = marks o.col == 0

abbrev pub orders_are_plain : List Order → Bool
orders_are_plain [] = true
orders_are_plain (o ∷ os) = order_is_plain o && orders_are_plain os

pub length-append {ℓ} : {A : Type ℓ} (xs ys : List A) → length (xs ++ ys) ≡ length xs + length ys
length-append [] ys = omega arith
length-append (x ∷ xs) ys = ground (arith, length-append xs ys)

pub is_empty-marks : (s : Bytes) → is_empty s ≡ true → marks s ≡ 0
unfolding is_empty
is_empty-marks s e = ground (
  arith,
  e,
  trim_space-count is_mark s refl,
  bytes_eq_instance.beq_iff (trim_space s) [],
  bytes_eq_instance.beq_iff (trim_space s) (b'<' ∷ b'n' ∷ b'i' ∷ b'l' ∷ b'>' ∷ []),
)

arith_symbol_text-marks : (a : ArithSymbol) → marks (arith_symbol_text a) ≡ 0
unfolding arith_symbol_text
arith_symbol_text-marks a = ground arith

join_placeholders-marks : (xs : List Passed) → marks (join_placeholders xs) ≡ length xs
unfolding join_placeholders
join_placeholders-marks [] = refl
join_placeholders-marks (a ∷ []) = refl
join_placeholders-marks (a ∷ b ∷ xs) = ground (arith, join_placeholders-marks (b ∷ xs))

quoted-marks : (col : Bytes) → marks (quoted col) ≡ marks col
quoted-marks col = ground (arith, count_if-append is_mark col (b'`' ∷ []))

tested-marks : (c : Criteria) → marks (tested c).0 ≡ length (tested c).1
unfolding tested
tested-marks c = ground (
  arith,
  arith_symbol_text-marks c.asym,
  count_if-append is_mark (arith_symbol_text c.asym) (32 ∷ b'n' ∷ b'u' ∷ b'l' ∷ b'l' ∷ []),
  count_if-append is_mark (arith_symbol_text c.asym) (32 ∷ b'?' ∷ []),
)

-- As many placeholders as arguments.
abbrev pub Balanced : SqlText → Type 0
Balanced t = marks t.0 ≡ length t.1

pub marks-append : (s t : Bytes) → marks (s ++ t) ≡ marks s + marks t
marks-append s t = count_if-append is_mark s t

listed-marks :
    (a : ArithSymbol) (col : Bytes) (xs : List Passed)
    → marks col ≡ 0
    → marks (
        quoted col ++ (32 ∷ arith_symbol_text a ++ (32 ∷ b'(' ∷ join_placeholders xs ++ b')' ∷ [])))
      ≡ length xs
listed-marks a col xs z = ground (
  arith,
  z,
  quoted-marks col,
  arith_symbol_text-marks a,
  join_placeholders-marks xs,
  marks-append (quoted col)
      (32 ∷ arith_symbol_text a ++ (32 ∷ b'(' ∷ join_placeholders xs ++ b')' ∷ [])),
  marks-append (arith_symbol_text a) (32 ∷ b'(' ∷ join_placeholders xs ++ b')' ∷ []),
  marks-append (join_placeholders xs) (b')' ∷ []),
)

named-marks :
    (t col rest : Bytes)
    → marks t ≡ 0
    → marks col ≡ 0
    → marks (t ++ b'.' ∷ quoted col ++ rest) ≡ marks rest
named-marks t col rest zt zc = ground (
  arith,
  zt,
  zc,
  quoted-marks col,
  marks-append t (b'.' ∷ quoted col),
  marks-append (t ++ b'.' ∷ quoted col) rest,
)

pub criteria_sql-Balanced :
    (c : Criteria) → marks c.talias ≡ 0 → marks c.col ≡ 0 → Balanced (criteria_sql c)
unfolding criteria_sql
criteria_sql-Balanced c t k = elim (Bool-cases (is_list_test c.asym)) [
  | inl listed ↦ rw (listed) (listed-marks c.asym c.col (list_args c.val) k)
  | inr other ↦ elim (Bool-cases (is_empty c.talias)) [
    | inl bare ↦
        rw (other, bare)
          (marks-append (quoted c.col) (tested c).0
            ∙ ground (arith, k, quoted-marks c.col, tested-marks c))
    | inr named ↦ rw (other, named) (named-marks c.talias c.col (tested c).0 t k ∙ tested-marks c)
  ]
]

cut-marks :
    (b : ℕ) (s : Bytes) (r : Bytes × Bytes)
    → cut b s ≡ some r
    → marks s ≡ 0
    → (marks r.0 ≡ 0) × (marks r.1 ≡ 0)
unfolding cut
cut-marks b [] r e z = (ground (arith, e), ground (arith, e))
cut-marks b (c ∷ s) r e z = elim (Option-cases (cut b s)) [
  | inl whole ↦ (ground (arith, e, z, whole), ground (arith, e, z, whole))
  | inr (q, found) ↦
      let (za, zb) = cut-marks b s q found (ground (arith, z)) in
      (ground (arith, e, z, found, za, zb), ground (arith, e, z, found, za, zb))
]

sort_text-marks : (s : Sort) → marks (sort_text s) ≡ 0
unfolding sort_text
sort_text-marks s = ground arith

bare-marks : (col : Bytes) (s : Sort) → marks col ≡ 0 → marks (quoted col ++ 32 ∷ sort_text s) ≡ 0
bare-marks col s z =
    ground
      (arith, z, quoted-marks col, sort_text-marks s, marks-append (quoted col) (32 ∷ sort_text s))

order_sql-marks : (o : Order) → marks o.col ≡ 0 → marks (order_sql o) ≡ 0
unfolding order_sql
order_sql-marks o z = elim (Option-cases (cut b'.' o.col)) [
  | inl whole ↦ rw (whole, order_sql) (bare-marks o.col o.sort z)
  | inr (r, found) ↦
      let (za, zc) = cut-marks b'.' o.col r found z in
      elim (Bool-cases (is_empty r.0)) [
        | inl bare ↦ rw (found, bare, order_sql) (bare-marks r.1 o.sort zc)
        | inr named ↦
            rw (found, named, order_sql)
              (named-marks r.0 r.1 (32 ∷ sort_text o.sort) za zc ∙ sort_text-marks o.sort)
      ]
]

more_orders-marks : (os : List Order) → orders_are_plain os ≡ true → marks (more_orders os) ≡ 0
unfolding more_orders
more_orders-marks [] z = refl
more_orders-marks (o ∷ os) z = ground (
  arith,
  z,
  order_sql-marks o,
  more_orders-marks os,
  count_if-append is_mark (order_sql o) (more_orders os),
)

orders_sql-marks : (os : List Order) → orders_are_plain os ≡ true → marks (orders_sql os) ≡ 0
unfolding orders_sql
orders_sql-marks [] z = refl
orders_sql-marks (o ∷ os) z = ground (
  arith,
  z,
  order_sql-marks o,
  more_orders-marks os,
  count_if-append is_mark (order_sql o) (more_orders os),
)

abbrev pub limit_text : Bytes
limit_text = 32 ∷ b'l' ∷ b'i' ∷ b'm' ∷ b'i' ∷ b't' ∷ 32 ∷ b'?' ∷ b',' ∷ b'?' ∷ []

pub page_sql-Balanced : (p : Page) → orders_are_plain p.orders ≡ true → Balanced (page_sql p)
unfolding page_sql
page_sql-Balanced p z = elim (Bool-cases (ltb_ℤ (pos 0) p.size)) [
  | inl limited ↦
      rw (limited, page_sql)
        (trim_space-count is_mark (orders_sql p.orders ++ limit_text) refl
          ∙ ground
              (arith, orders_sql-marks p.orders z, marks-append (orders_sql p.orders) limit_text))
  | inr all ↦
      rw (all, page_sql)
        (trim_space-count is_mark (orders_sql p.orders ++ 32 ∷ []) refl
          ∙ ground
              (arith, orders_sql-marks p.orders z, marks-append (orders_sql p.orders) (32 ∷ [])))
]
