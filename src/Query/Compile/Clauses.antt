-- ===== src/Query/Compile/Clauses.antt =====
-- mc/query/compile.go: the clauses of the SQL text. The formats of fmt.Sprintf are written out;
-- `show` is its `%d`.
use concat.Base.{
  Text, text_eq, nat_eq, codes, ◌==◌, Bool, true, false, Option, none, some, List, [], ◌∷◌, ◌++◌,
  map, Result, ok, err, panic, query_compile_error, ◌>>=◌, last_byte, drop_last_two, join,
  if◌then◌else◌,
}
use concat.Base.Int.{ℤ}
use concat.Base.Dict.{Dict, lookup}
use concat.Query.{Query, QuerySelector, QueryCriteria, QueryOrderSpec}
use concat.Query.Selector.{check_function_selector}

-- The columns are named so where two tables with an id are joined.
unfoldable pub disambig_selector : Text → Bool → Text
disambig_selector col join =
    if join then (if col == codes "id" then codes "Envelope.id" else col) else col

abbrev pub selector_column : Text → Dict Text Text → Text
selector_column sel rename = elim (lookup rename sel) [ none ↦ sel | some col ↦ col ]

abbrev pub selector_column_simple : Dict Text Text
selector_column_simple =
    (codes "*", codes "data")
    ∷ (codes "body", codes "data")
    ∷ (codes "namespace", codes "DISTINCT namespace")
    ∷ (codes "publisher", codes "DISTINCT publisher")
    ∷ (codes "source", codes "DISTINCT source")
    ∷ []

abbrev pub selector_column_compound : Dict Text Text
selector_column_compound = (codes "*", codes "data") ∷ (codes "body", codes "data") ∷ []

abbrev pub selector_column_fun : Dict Text Text
selector_column_fun =
    (codes "*", codes "1")
    ∷ (codes "body", codes "1")
    ∷ (codes "namespace", codes "DISTINCT namespace")
    ∷ (codes "publisher", codes "DISTINCT publisher")
    ∷ (codes "source", codes "DISTINCT source")
    ∷ []

-- The text of a function selector, `op(sel)`.
abbrev call : Text → Text → Text
call op sel = op ++ (codes "(" ++ (sel ++ codes ")"))

-- The columns of a compound selector.
unfoldable pub compound_columns : List Text → Bool → List Text
unfolding disambig_selector
compound_columns sel join =
    map (λ s. disambig_selector (selector_column s selector_column_compound) join) sel

unfoldable pub compile_query_columns : Option QuerySelector → Bool → Result Text
unfolding compound_columns disambig_selector
compile_query_columns none join =
    err (query_compile_error (codes "Unexpected selector type: <nil>"))
compile_query_columns (some (QuerySelector.simple sel)) join =
    ok (disambig_selector (selector_column sel selector_column_simple) join)
compile_query_columns (some (QuerySelector.compound (sel ∷ []))) join =
    ok (disambig_selector (selector_column sel selector_column_simple) join)
compile_query_columns (some (QuerySelector.compound [])) join = ok []
compile_query_columns (some (QuerySelector.compound (a ∷ b ∷ sel))) join =
    ok (concat.Base.join (compound_columns (a ∷ b ∷ sel) join) (codes ", "))
compile_query_columns (some (QuerySelector.function sel)) join =
    if check_function_selector sel
    then ok (call sel.op (disambig_selector (selector_column sel.sel selector_column_fun) join))
    else err (query_compile_error (codes "Illegal selector: " ++ call sel.op sel.sel))

-- `ns[len(ns)-1]` and `ns[:len(ns)-2]` panic where the string is too short.
unfoldable pub compile_namespace_criteria : Text → Result Text
compile_namespace_criteria ns = if ns == codes "*" then ok [] else (elim (last_byte ns) [
  | none ↦ panic
  | some c ↦
      if c == b'*'
      then (elim (drop_last_two ns) [
        | none ↦ panic
        | some pre ↦ ok (codes "namespace LIKE '" ++ (pre ++ codes "%'"))
      ])
      else ok (codes "namespace = '" ++ (ns ++ codes "'"))
])

abbrev order_spec : Bool → QueryOrderSpec → Text
order_spec join spec =
    if spec.dir == []
    then disambig_selector spec.sel join
    else disambig_selector spec.sel join ++ (codes " " ++ spec.dir)

unfoldable pub compile_query_order : Option (List QueryOrderSpec) → Bool → Text
unfolding disambig_selector
compile_query_order none join = []
compile_query_order (some order) join = concat.Base.join (map (order_spec join) order) (codes ", ")

module _ (show : ℤ → Text) where
  unfoldable pub compile_selector_criteria : QueryCriteria → Bool → Text
  unfolding disambig_selector
  compile_selector_criteria (QueryCriteria.value op sel val) join =
      disambig_selector sel join ++ (codes " " ++ (op ++ (codes " '" ++ (val ++ codes "'"))))
  compile_selector_criteria (QueryCriteria.range op sel val) join =
      sel ++ (codes " " ++ (op ++ (codes " " ++ show val)))
  compile_selector_criteria (QueryCriteria.index sel val) join =
      sel ++ (codes " = '" ++ (val ++ codes "'"))
  compile_selector_criteria (QueryCriteria.compound op left right) join =
      codes "("
      ++ (compile_selector_criteria left join
          ++ (codes " "
              ++ (op ++ (codes " " ++ (compile_selector_criteria right join ++ codes ")")))))
  compile_selector_criteria (QueryCriteria.negated e) join =
      codes "NOT " ++ compile_selector_criteria e join

  -- The criteria behind those of the namespace.
  abbrev and_criteria : Option QueryCriteria → Bool → Text → Text
  and_criteria none join nscrit = nscrit
  and_criteria (some c) join nscrit =
      if nscrit == []
      then compile_selector_criteria c join
      else nscrit ++ (codes " AND " ++ compile_selector_criteria c join)

  unfoldable pub compile_query_criteria : Query → Bool → Result Text
  unfolding compile_namespace_criteria compile_selector_criteria
  compile_query_criteria q join = do
    nscrit ← compile_namespace_criteria q.namespace
    ok (and_criteria q.criteria join nscrit)
