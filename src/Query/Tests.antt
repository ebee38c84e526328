-- ===== src/Query/Tests.antt =====
-- The theorems on sqlext/query/query.go at concrete expressions.
use toolkit.Prelude.{◌≡◌, refl, [], ◌∷◌, some, length}
use toolkit.Prelude.Int.{pos}
use toolkit.Query.{
  in_list, eq, and, end, asc, scalar, slice, arg, Criteria, Base, criteria_base, page_base,
  where_base, sql,
}
use toolkit.Query.Marks.{marks}
use toolkit.Query.Placeholders.{sql-Balanced}

-- `C().Col("u.id").In(slice of two)`
abbrev of_two : Criteria
of_two = record {
  talias = b'u' ∷ [];
  col = b'i' ∷ b'd' ∷ [];
  val = some (slice (arg 1 ∷ arg 2 ∷ []));
  asym = in_list;
}

-- `C().Col("age").Eq(3)`
abbrev of_age : Criteria
of_age = record {
  talias = [];
  col = b'a' ∷ b'g' ∷ b'e' ∷ [];
  val = some (scalar (arg 3));
  asym = eq;
}

abbrev filter : Base
filter = where_base end (where_base and (criteria_base of_two) (criteria_base of_age)) (
    page_base (record {
      orders = record { col = b'i' ∷ b'd' ∷ []; sort = asc } ∷ [];
      offset = pos 0;
      size = pos 20;
    }))

sql-Balanced_example : marks (sql filter).0 ≡ length (sql filter).1
sql-Balanced_example = sql-Balanced filter refl
