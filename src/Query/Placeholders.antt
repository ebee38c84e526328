-- ===== src/Query/Placeholders.antt =====
-- The placeholders of the SQL text that sqlext/query/query.go builds, and its arguments.
use toolkit.Prelude.{
  ◌≡◌, refl, Bool, true, ◌&&◌, ◌==◌, List, [], ◌∷◌, ◌++◌, Bytes, bytes_eq_instance, arith, length,
}
use toolkit.Query.{
  LogicSymbol, and, or, append, end, logic_symbol_text, Passed, SqlText, Base, criteria_base,
  empty_where, where_base, page_base, string_base, join_sql, sql,
}
use toolkit.Query.Marks.{
  marks, orders_are_plain, Balanced, criteria_sql-Balanced, page_sql-Balanced, marks-append,
  length-append, is_empty-marks,
}

abbrev pub is_plain : Base → Bool
is_plain (criteria_base c) = (marks c.talias == 0) && (marks c.col == 0)
is_plain empty_where = true
is_plain (where_base lsym b0 b1) = is_plain b0 && is_plain b1
is_plain (page_base p) = orders_are_plain p.orders
is_plain (string_base s) = marks s == 0

-- Two texts joined by a text without placeholders, in parentheses.
joined-marks :
    (w0 between w1 : Bytes) (args0 args1 : List Passed)
    → marks between ≡ 0
    → marks w0 ≡ length args0
    → marks w1 ≡ length args1
    → marks (b'(' ∷ w0 ++ (between ++ (w1 ++ b')' ∷ []))) ≡ length (args0 ++ args1)
joined-marks w0 between w1 args0 args1 z e0 e1 = ground (
  arith,
  z,
  e0,
  e1,
  length-append args0 args1,
  marks-append w0 (between ++ (w1 ++ b')' ∷ [])),
  marks-append between (w1 ++ b')' ∷ []),
  marks-append w1 (b')' ∷ []),
)

join_sql-Balanced :
    (lsym : LogicSymbol) (t0 t1 : SqlText)
    → Balanced t0
    → Balanced t1
    → Balanced (join_sql lsym t0 t1)
unfolding join_sql logic_symbol_text
join_sql-Balanced end (w0, args0) (w1, args1) e0 e1 =
    ground (arith, e0, e1, length-append args0 args1, is_empty-marks w1, marks-append w0 (32 ∷ w1))
join_sql-Balanced append (w0, args0) (w1, args1) e0 e1 = ground (
  arith,
  e0,
  e1,
  length-append args0 args1,
  is_empty-marks w0,
  is_empty-marks w1,
  joined-marks w0 (32 ∷ []) w1 args0 args1 refl e0 e1,
)
join_sql-Balanced and (w0, args0) (w1, args1) e0 e1 = ground (
  arith,
  e0,
  e1,
  length-append args0 args1,
  is_empty-marks w0,
  is_empty-marks w1,
  joined-marks w0 (32 ∷ logic_symbol_text and ++ 32 ∷ []) w1 args0 args1 refl e0 e1,
)
join_sql-Balanced or (w0, args0) (w1, args1) e0 e1 = ground (
  arith,
  e0,
  e1,
  length-append args0 args1,
  is_empty-marks w0,
  is_empty-marks w1,
  joined-marks w0 (32 ∷ logic_symbol_text or ++ 32 ∷ []) w1 args0 args1 refl e0 e1,
)

-- Whatever expression a client builds, if the table and column names and the strings that it puts in
-- hold no "?", the SQL text has as many placeholders as there are arguments.
pub sql-Balanced : (b : Base) → is_plain b ≡ true → marks (sql b).0 ≡ length (sql b).1
unfolding sql
sql-Balanced (criteria_base c) z = criteria_sql-Balanced c (ground (arith, z)) (ground (arith, z))
sql-Balanced empty_where z = refl
sql-Balanced (where_base lsym b0 b1) z =
    join_sql-Balanced lsym (sql b0) (sql b1) (sql-Balanced b0 (ground (arith, z)))
      (sql-Balanced b1 (ground (arith, z)))
sql-Balanced (page_base p) z = page_sql-Balanced p z
sql-Balanced (string_base s) z = ground (arith, z)
