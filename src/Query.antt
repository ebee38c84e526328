-- ===== src/Query.antt =====
-- sqlext/query/query.go, with sqlext/arithsymbol, sqlext/logicsymbol, sqlext/sortenum and the tests for
-- emptiness of stringutils/stringutils.go: builders of SQL text with its arguments.
pub mod Marks
pub mod Placeholders
pub mod Algebra
pub mod Pages
mod Tests
use toolkit.Prelude.{
  ℕ, ◌+◌, Bool, true, false, not, ◌&&◌, ◌||◌, List, [], ◌∷◌, ◌++◌, Option, none, some, Bytes,
  bytes_eq, if◌then◌else◌,
}
use toolkit.Prelude.Int.{ℤ, pos, ltb_ℤ}
use toolkit.Prelude.Text.{trim_space, cut}

pub data ArithSymbol : Type 0 where
  unset eq ne gt lt gte lte is is_not in_list not_in like : ArithSymbol

unfoldable pub arith_symbol_text : ArithSymbol → Bytes
arith_symbol_text unset = []
arith_symbol_text eq = b'=' ∷ []
arith_symbol_text ne = b'!' ∷ b'=' ∷ []
arith_symbol_text gt = b'>' ∷ []
arith_symbol_text lt = b'<' ∷ []
arith_symbol_text gte = b'>' ∷ b'=' ∷ []
arith_symbol_text lte = b'<' ∷ b'=' ∷ []
arith_symbol_text is = b'i' ∷ b's' ∷ []
arith_symbol_text is_not = b'i' ∷ b's' ∷ 32 ∷ b'n' ∷ b'o' ∷ b't' ∷ []
arith_symbol_text in_list = b'i' ∷ b'n' ∷ []
arith_symbol_text not_in = b'n' ∷ b'o' ∷ b't' ∷ 32 ∷ b'i' ∷ b'n' ∷ []
arith_symbol_text like = b'l' ∷ b'i' ∷ b'k' ∷ b'e' ∷ []

pub data LogicSymbol : Type 0 where
  and or append end : LogicSymbol

unfoldable pub logic_symbol_text : LogicSymbol → Bytes
logic_symbol_text and = b'a' ∷ b'n' ∷ b'd' ∷ []
logic_symbol_text or = b'o' ∷ b'r' ∷ []
logic_symbol_text append = 32 ∷ []
logic_symbol_text end = []

pub data Sort : Type 0 where
  asc desc : Sort

unfoldable pub sort_text : Sort → Bytes
sort_text asc = b'a' ∷ b's' ∷ b'c' ∷ []
sort_text desc = b'd' ∷ b'e' ∷ b's' ∷ b'c' ∷ []

-- An argument of the SQL text: a value of the caller, by some identity, or an int of a page.
pub data Arg : Type 0 where
  arg : ℕ → Arg
  number : ℤ → Arg

-- The value that a criteria is given: a slice, or another value but the nil interface.
pub data Val : Type 0 where
  scalar : Arg → Val
  slice : List Arg → Val

-- An element of the arguments: a single one, or the value of a criteria as a whole, nil if none is set.
pub data Passed : Type 0 where
  one : Arg → Passed
  whole : Option Val → Passed

abbrev pub SqlText : Type 0
SqlText = Bytes × List Passed

-- `stringutils.IsEmpty`
unfoldable pub is_empty : Bytes → Bool
is_empty s =
    bytes_eq (trim_space s) [] || bytes_eq (trim_space s) (b'<' ∷ b'n' ∷ b'i' ∷ b'l' ∷ b'>' ∷ [])

pub record Criteria : Type 0 where
  pub talias : Bytes
  pub col : Bytes
  pub val : Option Val
  pub asym : ArithSymbol

-- `C()`
unfoldable pub new_criteria : Criteria
new_criteria = record { talias = []; col = []; val = none; asym = unset }

unfoldable pub set_col : Bytes → Criteria → Criteria
unfolding cut
set_col col c = elim (cut b'.' col) [
  | none ↦ record c { col = col }
  | some (alias, rest) ↦ record c { talias = alias; col = rest }
]

-- `Eq`, `Ne`, `Gt`, `Lt`, `Gte`, `Lte`, `In`, `NotIn` and `Like`, by their operator.
unfoldable pub compare_with : ArithSymbol → Val → Criteria → Criteria
compare_with asym val c = record c { val = some val; asym = asym }

unfoldable pub is_null : Criteria → Criteria
is_null c = record c { asym = is }

unfoldable pub is_not_null : Criteria → Criteria
is_not_null c = record c { asym = is_not }

unfoldable pub one_each : List Arg → List Passed
one_each [] = []
one_each (a ∷ xs) = one a ∷ one_each xs

-- `args` of an `in`, which always has a value.
unfoldable pub list_args : Option Val → List Passed
unfolding one_each
list_args none = []
list_args (some (scalar a)) = one a ∷ []
list_args (some (slice xs)) = one_each xs

-- `strings.Join` of as many "?" as there are arguments, with commas.
unfoldable pub join_placeholders : List Passed → Bytes
join_placeholders [] = []
join_placeholders (a ∷ []) = b'?' ∷ []
join_placeholders (a ∷ b ∷ xs) = b'?' ∷ b',' ∷ join_placeholders (b ∷ xs)

abbrev pub quoted : Bytes → Bytes
quoted col = b'`' ∷ col ++ b'`' ∷ []

abbrev pub is_list_test : ArithSymbol → Bool
is_list_test in_list = true
is_list_test not_in = true
is_list_test _ = false

abbrev pub is_null_test : ArithSymbol → Bool
is_null_test is = true
is_null_test is_not = true
is_null_test _ = false

-- `Criteria.Sql` for an operator that is not `in` or `not in`, after the column.
unfoldable pub tested : Criteria → SqlText
unfolding arith_symbol_text
tested c =
    if is_null_test c.asym
    then (32 ∷ arith_symbol_text c.asym ++ 32 ∷ b'n' ∷ b'u' ∷ b'l' ∷ b'l' ∷ [], [])
    else (32 ∷ arith_symbol_text c.asym ++ 32 ∷ b'?' ∷ [], whole c.val ∷ [])

unfoldable pub criteria_sql : Criteria → SqlText
unfolding arith_symbol_text list_args join_placeholders is_empty tested
criteria_sql c =
    if is_list_test c.asym
    then (
      quoted c.col
          ++ (32 ∷ arith_symbol_text c.asym
              ++ (32 ∷ b'(' ∷ join_placeholders (list_args c.val) ++ b')' ∷ [])),
      list_args c.val,
    )
    else if not (is_empty c.talias)
    then (c.talias ++ b'.' ∷ quoted c.col ++ (tested c).0, (tested c).1)
    else (quoted c.col ++ (tested c).0, (tested c).1)

pub record Order : Type 0 where
  pub col : Bytes
  pub sort : Sort

pub record Page : Type 0 where
  pub orders : List Order
  pub offset : ℤ
  pub size : ℤ

unfoldable pub order_sql : Order → Bytes
unfolding cut is_empty sort_text
order_sql o = elim (cut b'.' o.col) [
  | none ↦ quoted o.col ++ 32 ∷ sort_text o.sort
  | some (alias, col) ↦
      if not (is_empty alias)
      then alias ++ b'.' ∷ quoted col ++ 32 ∷ sort_text o.sort
      else quoted col ++ 32 ∷ sort_text o.sort
]

-- The orders, from the second on with a comma before each.
unfoldable pub more_orders : List Order → Bytes
unfolding order_sql
more_orders [] = []
more_orders (o ∷ os) = b',' ∷ order_sql o ++ more_orders os

unfoldable pub orders_sql : List Order → Bytes
unfolding order_sql more_orders
orders_sql [] = []
orders_sql (o ∷ os) =
    b'o' ∷ b'r' ∷ b'd' ∷ b'e' ∷ b'r' ∷ 32 ∷ b'b' ∷ b'y' ∷ 32 ∷ order_sql o ++ more_orders os

unfoldable pub page_sql : Page → SqlText
unfolding orders_sql trim_space
page_sql p =
    if ltb_ℤ (pos 0) p.size
    then (
      trim_space (
          orders_sql p.orders
          ++ (32 ∷ b'l' ∷ b'i' ∷ b'm' ∷ b'i' ∷ b't' ∷ 32 ∷ b'?' ∷ b',' ∷ b'?' ∷ [])),
      one (number p.offset) ∷ one (number p.size) ∷ [],
    )
    else (trim_space (orders_sql p.orders ++ 32 ∷ []), [])

-- The implementations of `Base` in the package. A `Where` has no children or two.
pub data Base : Type 0 where
  criteria_base : Criteria → Base
  empty_where : Base
  where_base : LogicSymbol → Base → Base → Base
  page_base : Page → Base
  string_base : Bytes → Base

-- `Where.Sql` of the texts of the two children.
unfoldable pub join_sql : LogicSymbol → SqlText → SqlText → SqlText
unfolding is_empty logic_symbol_text
join_sql end (w0, args0) (w1, args1) =
    if is_empty w1 then (w0, args0 ++ args1) else (w0 ++ 32 ∷ w1, args0 ++ args1)
join_sql append (w0, args0) (w1, args1) =
    if not (is_empty w0) && not (is_empty w1)
    then (b'(' ∷ w0 ++ (logic_symbol_text append ++ (w1 ++ b')' ∷ [])), args0 ++ args1)
    else if not (is_empty w0)
    then (w0, args0 ++ args1)
    else if not (is_empty w1)
    then (w1, args0 ++ args1)
    else ([], [])
join_sql lsym (w0, args0) (w1, args1) =
    if not (is_empty w0) && not (is_empty w1)
    then (b'(' ∷ w0 ++ (32 ∷ logic_symbol_text lsym ++ (32 ∷ w1 ++ b')' ∷ [])), args0 ++ args1)
    else if not (is_empty w0)
    then (w0, args0 ++ args1)
    else if not (is_empty w1)
    then (w1, args0 ++ args1)
    else ([], [])

unfoldable pub sql : Base → SqlText
unfolding criteria_sql page_sql join_sql
sql (criteria_base c) = criteria_sql c
sql empty_where = ([], [])
sql (where_base lsym b0 b1) = join_sql lsym (sql b0) (sql b1)
sql (page_base p) = page_sql p
sql (string_base s) = (s, [])

-- `And`, `Or` and `End` of a criteria and of a `Where`, and `Append` of a criteria.
unfoldable pub combine : LogicSymbol → Base → Base → Base
combine lsym b whe = where_base lsym b whe

-- `Append` of a `Where`: a page is put behind it without parentheses.
unfoldable pub append_to_where : Base → Base → Base
append_to_where w (page_base p) = where_base end w (page_base p)
append_to_where w whe = where_base append w whe

-- `ToWhere`
unfoldable pub to_where : Criteria → Base
to_where c = where_base end (criteria_base c) (string_base [])
