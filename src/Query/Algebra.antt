-- ===== src/Query/Algebra.antt =====
-- How the combinators of sqlext/query/query.go act: the neutral `Where`, and the table alias.
use toolkit.Prelude.{◌≡◌, refl, true, false, [], Bytes, arith, append-nil, bytes_eq}
use toolkit.Prelude.Text.{trim_space}
use toolkit.Query.{
  LogicSymbol, and, or, append, end, SqlText, is_empty, Criteria, is_list_test, criteria_sql, Base,
  empty_where, join_sql, sql, combine,
}

is_empty-nothing : is_empty [] ≡ true
unfolding is_empty trim_space bytes_eq
is_empty-nothing = refl

-- `Where.Sql` of a text and an empty one.
join_sql-nothing_right :
    (lsym : LogicSymbol) (t : SqlText) → is_empty t.0 ≡ false → join_sql lsym t ([], []) ≡ t
unfolding join_sql
join_sql-nothing_right and (w, args) full = ground (arith, full, is_empty-nothing, append-nil args)
join_sql-nothing_right or (w, args) full = ground (arith, full, is_empty-nothing, append-nil args)
join_sql-nothing_right append (w, args) full =
    ground (arith, full, is_empty-nothing, append-nil args)
join_sql-nothing_right end (w, args) full = ground (arith, full, is_empty-nothing, append-nil args)

join_sql-nothing_left :
    (lsym : LogicSymbol) (t : SqlText)
    → is_empty t.0 ≡ false
    → ¬ (lsym ≡ end)
    → join_sql lsym ([], []) t ≡ t
unfolding join_sql
join_sql-nothing_left and (w, args) full other = ground (arith, full, is_empty-nothing)
join_sql-nothing_left or (w, args) full other = ground (arith, full, is_empty-nothing)
join_sql-nothing_left append (w, args) full other = ground (arith, full, is_empty-nothing)
join_sql-nothing_left end t full other = absurd (other refl)

-- An empty `Where` beside a condition whose text is not empty leaves the text and the arguments of the
-- condition, on both sides and with each connective but `End`.
combine-empty_where :
    (lsym : LogicSymbol) (b : Base)
    → is_empty (sql b).0 ≡ false
    → ¬ (lsym ≡ end)
    → (sql (combine lsym b empty_where) ≡ sql b) × (sql (combine lsym empty_where b) ≡ sql b)
unfolding combine sql
combine-empty_where lsym b full other =
    (join_sql-nothing_right lsym (sql b) full, join_sql-nothing_left lsym (sql b) full other)

-- The SQL text of `in` and `not in` does not depend on the table alias of the column: two criteria that
-- differ only in the alias have the same text.
pub criteria_sql-alias_of_list :
    (c : Criteria) (alias : Bytes)
    → is_list_test c.asym ≡ true
    → criteria_sql (record c { talias = alias }) ≡ criteria_sql c
unfolding criteria_sql
criteria_sql-alias_of_list c alias listed = rw (listed) refl
