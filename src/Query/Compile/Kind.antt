-- ===== src/Query/Compile/Kind.antt =====
-- mc/query/compile.go: the tables that a query reads.
pub mod Reads
use concat.Base.{
  Text, text_eq, codes, ◌==◌, Bool, true, false, ◌&&◌, ◌||◌, Option, none, some, List, [], ◌∷◌,
  ◌++◌, Result, ok, err, query_compile_error, ◌>>=◌, if◌then◌else◌,
}
use concat.Base.Dict.{Dict, lookup, put}
use concat.Query.{Query, QuerySelector, QueryCriteria, QueryOrderSpec}

abbrev statement_selectorp : Dict Text Bool
statement_selectorp = (codes "*", true) ∷ (codes "body", true) ∷ (codes "id", true) ∷ []

abbrev envelope_selectorp : Dict Text Bool
envelope_selectorp =
    (codes "id", true)
    ∷ (codes "publisher", true)
    ∷ (codes "namespace", true)
    ∷ (codes "source", true)
    ∷ (codes "timestamp", true)
    ∷ (codes "counter", true)
    ∷ []

-- `tbl[string(sel)]`, false for a missing key.
abbrev flag : Dict Text Bool → Text → Bool
flag tbl sel = elim (lookup tbl sel) [ none ↦ false | some b ↦ b ]

-- The case of a compound selector.
unfoldable pub all_in_table : Dict Text Bool → List Text → Bool
all_in_table tbl [] = true
all_in_table tbl (ssel ∷ sel) =
    let rest = all_in_table tbl sel in if flag tbl ssel then rest else false

unfoldable pub selectorp : Option QuerySelector → Dict Text Bool → Bool → Bool
unfolding all_in_table
selectorp (some (QuerySelector.simple sel)) tbl funp = flag tbl sel
selectorp (some (QuerySelector.compound sel)) tbl funp = all_in_table tbl sel
selectorp (some (QuerySelector.function sel)) tbl funp = funp
selectorp none tbl funp = false

unfoldable pub is_statement_selector : Option QuerySelector → Bool
unfolding selectorp
is_statement_selector sel = selectorp sel statement_selectorp false

unfoldable pub is_envelope_selector : Option QuerySelector → Bool
unfolding selectorp
is_envelope_selector sel = selectorp sel envelope_selectorp true

unfoldable pub is_statement_criteria : QueryCriteria → Bool
is_statement_criteria (QueryCriteria.value op sel val) = sel == codes "id"
is_statement_criteria (QueryCriteria.compound op left right) =
    is_statement_criteria left && is_statement_criteria right
is_statement_criteria (QueryCriteria.negated e) = is_statement_criteria e
is_statement_criteria (QueryCriteria.range op sel val) = false
is_statement_criteria (QueryCriteria.index sel val) = false

-- `q.criteria == nil || isStatementCriteria(q.criteria)`
abbrev pub no_other_criteria : Option QueryCriteria → Bool
no_other_criteria none = true
no_other_criteria (some c) = is_statement_criteria c

abbrev unordered : Option (List QueryOrderSpec) → Bool
unordered none = true
unordered (some order) = false

unfoldable pub is_statement_query : Query → Bool
unfolding is_statement_selector is_statement_criteria
is_statement_query q =
    q.namespace == codes "*"
    && (is_statement_selector q.selector && (no_other_criteria q.criteria && unordered q.order))

unfoldable pub is_envelope_query : Query → Bool
unfolding is_envelope_selector
is_envelope_query q = is_envelope_selector q.selector

unfoldable pub is_index_criteria : QueryCriteria → Bool
is_index_criteria (QueryCriteria.index sel val) = true
is_index_criteria (QueryCriteria.compound op left right) =
    is_index_criteria left || is_index_criteria right
is_index_criteria (QueryCriteria.negated e) = is_index_criteria e
is_index_criteria (QueryCriteria.value op sel val) = false
is_index_criteria (QueryCriteria.range op sel val) = false

abbrev index_criteria_table_names : Dict Text Text
index_criteria_table_names = (codes "wki", codes "Refs") ∷ []

unfoldable pub add_table : Option Text → Text → Dict Text Text → Result (Dict Text Text)
add_table none sel tabs = err (query_compile_error (codes "Unexpected index selector: " ++ sel))
add_table (some tab) sel tabs = ok (put tabs sel tab)

unfoldable pub collect_index_criteria_tables :
    Dict Text Text → QueryCriteria → Result (Dict Text Text)
unfolding add_table
collect_index_criteria_tables tabs (QueryCriteria.index sel val) =
    add_table (lookup index_criteria_table_names sel) sel tabs
collect_index_criteria_tables tabs (QueryCriteria.compound op left right) = do
  tabs' ← collect_index_criteria_tables tabs left
  collect_index_criteria_tables tabs' right
collect_index_criteria_tables tabs (QueryCriteria.negated e) = collect_index_criteria_tables tabs e
collect_index_criteria_tables tabs (QueryCriteria.value op sel val) = ok tabs
collect_index_criteria_tables tabs (QueryCriteria.range op sel val) = ok tabs

unfoldable pub index_criteria_tables : QueryCriteria → Result (Dict Text Text)
unfolding collect_index_criteria_tables
index_criteria_tables c = collect_index_criteria_tables [] c
