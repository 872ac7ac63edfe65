-- ===== src/Query/ResultSet.antt =====
-- mc/query/eval.go: the three result sets that gather the selected values.
pub mod Simple
pub mod Order
use concat.Base.{
  ℕ, Text, text_eq, codes, ◌==◌, Bool, true, false, Option, none, some, List, [], ◌∷◌, ◌++◌, map,
  Result, ok, err, query_eval_error, ◌>>=◌, length, insert, if◌then◌else◌,
}
use concat.Base.Int.{ℤ, pos, int_eq, ltb_ℤ}
use concat.Base.Dict.{Dict, lookup, put}
use concat.Query.{Query, QuerySelector, FunctionSelector}
use concat.Query.Statement.{Statement}
use concat.Query.Filter.{entry_or}
use concat.Query.Selector.{
  Scalar, scalar_eq, StatementSelector, FunctionStatementSelector, simple_selectors,
  function_selectors, check_function_selector,
}

-- A result: the value of a simple selector or a function, or the object of a compound selector.
pub data Value : Type 0 where
  scalar : Scalar → Value
  object : Dict Text Scalar → Value

-- SimpleResultSet; `rset` is a Go map used as a set.
pub record SimpleResultSet : Type 0 where
  pub rset : List Scalar
  pub res : List Scalar
  pub getf : StatementSelector
  pub limit : ℤ

pub record CompoundResultSet : Type 0 where
  pub rset : List Value
  pub getf : Statement → Result Value
  pub limit : ℤ

pub record FunctionResultSet : Type 0 where
  pub rset : SimpleResultSet
  pub fun : FunctionStatementSelector
  pub res : List Scalar

-- The interface QueryResultSet with its three implementations.
pub data QueryResultSet : Type 0 where
  simple : SimpleResultSet → QueryResultSet
  compound : CompoundResultSet → QueryResultSet
  function : FunctionResultSet → QueryResultSet

unfoldable pub make_simple_result_set : StatementSelector → ℤ → SimpleResultSet
make_simple_result_set getf limit = record { rset = []; res = []; getf = getf; limit = limit }

-- makeCompoundStatementSelector: `val[sel] = getfs[x](stmt)` for each selector in turn.
unfoldable pub select_fields :
    List (Text × StatementSelector) → Statement → Dict Text Scalar → Result (Dict Text Scalar)
select_fields [] stmt val = ok val
select_fields ((sel, getf) ∷ rest) stmt val = do
  field ← getf stmt
  select_fields rest stmt (put val sel field)

unfoldable pub make_compound_statement_selector :
    List (Text × StatementSelector) → Statement → Result Value
unfolding select_fields
make_compound_statement_selector getfs stmt = select_fields getfs stmt [] >>= λ val. ok (object val)

unfoldable pub make_compound_result_set : List (Text × StatementSelector) → ℤ → CompoundResultSet
unfolding make_compound_statement_selector
make_compound_result_set getfs limit = record {
  rset = [];
  getf = make_compound_statement_selector getfs;
  limit = limit;
}

unfoldable pub make_function_result_set :
    FunctionStatementSelector → StatementSelector → ℤ → FunctionResultSet
unfolding make_simple_result_set
make_function_result_set fun getf limit = record {
  rset = make_simple_result_set getf limit;
  fun = fun;
  res = [];
}

-- The loop of makeResultSet over the keys of a compound selector.
unfoldable pub find_selectors : List Text → Result (List (Text × StatementSelector))
find_selectors [] = ok []
find_selectors (key ∷ sel) = do
  getf ← entry_or (lookup simple_selectors key) (codes "Unexpected selector: " ++ key)
  getfs ← find_selectors sel
  ok ((key, getf) ∷ getfs)

unfoldable pub make_function_selector : FunctionSelector → ℤ → Result QueryResultSet
unfolding make_function_result_set
make_function_selector sel limit =
    if check_function_selector sel
    then (do
      fun ← entry_or (lookup function_selectors sel.op) (codes "Unexpected selector: " ++ sel.op)
      getf ← entry_or (lookup simple_selectors sel.sel) (codes "Unexpected selector: " ++ sel.sel)
      ok (function (make_function_result_set fun getf limit)))
    else err (
        query_eval_error
          (codes "Illegal selector: " ++ (sel.op ++ (codes "(" ++ (sel.sel ++ codes ")")))))

unfoldable pub make_result_set_for : Option QuerySelector → ℤ → Result QueryResultSet
unfolding make_simple_result_set make_compound_result_set find_selectors make_function_selector
make_result_set_for none limit = err (query_eval_error (codes "Unexpected selector type: <nil>"))
make_result_set_for (some (QuerySelector.simple sel)) limit = do
  getf ← entry_or (lookup simple_selectors sel) (codes "Unexpected selector: " ++ sel)
  ok (simple (make_simple_result_set getf limit))
make_result_set_for (some (QuerySelector.compound sel)) limit = do
  getfs ← find_selectors sel
  ok (compound (make_compound_result_set getfs limit))
make_result_set_for (some (QuerySelector.function sel)) limit = make_function_selector sel limit

unfoldable pub make_result_set : Query → Result QueryResultSet
unfolding make_result_set_for
make_result_set query = make_result_set_for query.selector query.limit

-- SimpleResultSet.add
unfoldable pub simple_add : SimpleResultSet → Statement → Result SimpleResultSet
simple_add rs stmt =
    if rs.limit == pos 0
    then (rs.getf stmt >>= λ v. ok (record rs { rset = insert rs.rset v }))
    else if ltb_ℤ (pos (length rs.rset)) rs.limit
    then (rs.getf stmt >>= λ v. ok (record rs { rset = insert rs.rset v }))
    else ok rs

-- SimpleResultSet.end, for the order in which `range` goes through the keys of the map.
unfoldable pub simple_end : (List Scalar → List Scalar) → SimpleResultSet → SimpleResultSet
simple_end order rs = record rs { res = order rs.rset; rset = [] }

unfoldable pub begin : QueryResultSet → QueryResultSet
begin (simple rs) = simple rs
begin (compound rs) = compound (record rs { rset = [] })
begin (function rs) = function rs

unfoldable pub add : QueryResultSet → Statement → Result QueryResultSet
unfolding simple_add
add (simple rs) stmt = simple_add rs stmt >>= λ rs'. ok (simple rs')
add (compound rs) stmt =
    rs.getf stmt >>= λ v. ok (compound (record rs { rset = rs.rset ++ (v ∷ []) }))
add (function rs) stmt = simple_add rs.rset stmt >>= λ s. ok (function (record rs { rset = s }))

-- `end` of FunctionResultSet applies the function, which may panic.
unfoldable pub finish : (List Scalar → List Scalar) → QueryResultSet → Result QueryResultSet
unfolding simple_end
finish order (simple rs) = ok (simple (simple_end order rs))
finish order (compound rs) = ok (compound rs)
finish order (function rs) = do
  let s = simple_end order rs.rset
  res ← rs.fun s.res
  ok (function (record rs { rset = s; res = res }))

unfoldable pub result : QueryResultSet → List Value
result (simple rs) = map scalar rs.res
result (compound rs) = rs.rset
result (function rs) = map scalar rs.res
