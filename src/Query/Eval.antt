-- ===== src/Query/Eval.antt =====
-- mc/query/eval.go: EvalQuery.
pub mod Selected
pub mod Loop
pub mod Denotation
pub mod Functions
pub mod Compound
use concat.Base.{Bool, List, [], ◌∷◌, Result, ok, ◌>>=◌, if◌then◌else◌}
use concat.Query.{Query}
use concat.Query.Statement.{Statement}
use concat.Query.Selector.{Scalar}
use concat.Query.Filter.{StatementFilter, make_namespace_filter, make_criteria_filter}
use concat.Query.ResultSet.{Value, QueryResultSet, make_result_set, begin, add, finish, result}

-- `nsfilter(stmt) && cfilter(stmt)`
unfoldable pub passes : StatementFilter → StatementFilter → Statement → Result Bool
passes nsfilter cfilter stmt = nsfilter stmt >>= λ b. if b then cfilter stmt else ok b

-- The loop over the statements.
unfoldable pub eval_loop :
    StatementFilter → StatementFilter → QueryResultSet → List Statement → Result QueryResultSet
unfolding passes
eval_loop nsfilter cfilter rs [] = ok rs
eval_loop nsfilter cfilter rs (stmt ∷ stmts) = do
  keep ← passes nsfilter cfilter stmt
  rs' ← (if keep then add rs stmt else ok rs)
  eval_loop nsfilter cfilter rs' stmts

-- EvalQuery, for the order in which a result set goes through its values.
unfoldable pub eval_query :
    (List Scalar → List Scalar) → Query → List Statement → Result (List Value)
unfolding eval_loop
eval_query order query stmts = do
  nsfilter ← make_namespace_filter query
  cfilter ← make_criteria_filter query
  rs ← make_result_set query
  rs' ← eval_loop nsfilter cfilter (begin rs) stmts
  rs'' ← finish order rs'
  ok (result rs'')
