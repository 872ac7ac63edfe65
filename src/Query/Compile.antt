-- ===== src/Query/Compile.antt =====
-- mc/query/compile.go: CompileQuery.
pub mod Kind
pub mod Clauses
pub mod Rows
pub mod Columns
use concat.Base.{
  Text, text_eq, codes, ◌==◌, Bool, true, false, ◌||◌, Option, none, some, List, [], ◌∷◌, ◌++◌,
  Result, ok, ◌>>=◌, if◌then◌else◌,
}
use concat.Base.Int.{ℤ, pos, ltb_ℤ}
use concat.Base.Dict.{Dict}
use concat.Query.{Query, QueryCriteria}
use Kind.{is_statement_query, is_envelope_query, is_index_criteria, index_criteria_tables}
use Clauses.{compile_query_columns, compile_query_criteria, compile_query_order}
use Rows.{RowSelector, compile_query_row_selector}

-- What stands behind `SELECT %s`, and whether tables are joined.
unfoldable pub from_tables : Query → Text × Bool
from_tables q =
    if is_statement_query q
    then (codes " FROM Statement", false)
    else if is_envelope_query q
    then (codes " FROM Envelope", false)
    else (codes " FROM Statement JOIN Envelope ON Statement.id = Envelope.id", true)

-- The loop over the tables, in the order of the list.
abbrev join_tables : Text → Dict Text Text → Text
join_tables sqlq [] = sqlq
join_tables sqlq ((sel, tab) ∷ tabs) =
    join_tables
      (sqlq ++ (codes " JOIN " ++ (tab ++ (codes " ON Envelope.id = " ++ (tab ++ codes ".id")))))
      tabs

unfoldable pub add_index_tables : Option QueryCriteria → Text × Bool → Result (Text × Bool)
add_index_tables none from = ok from
add_index_tables (some c) (sqlq, join) =
    if is_index_criteria c
    then (index_criteria_tables c >>= λ tabs. ok (join_tables sqlq tabs, true))
    else ok (sqlq, join)

-- A clause that is left out where its text is empty.
abbrev clause : Text → Text → Text
clause keyword text = if text == [] then [] else keyword ++ text

module _ (show : ℤ → Text) where
  abbrev limit_clause : ℤ → Text
  limit_clause limit = if ltb_ℤ (pos 0) limit then codes " LIMIT " ++ show limit else []

  unfoldable pub compile_query : Query → Result (Text × RowSelector)
  unfolding from_tables add_index_tables
  compile_query q = do
    (from, join) ← add_index_tables q.criteria (from_tables q)
    cols ← compile_query_columns q.selector join
    crit ← compile_query_criteria show q join
    rsel ← compile_query_row_selector q.selector
    ok (
      codes "SELECT "
          ++ (cols
              ++ (from
                  ++ (clause (codes " WHERE ") crit
                      ++ (clause (codes " ORDER BY ") (compile_query_order q.order join)
                          ++ limit_clause q.limit)))),
      rsel,
    )
