-- ===== src/Query/Filter.antt =====
-- mc/query/eval.go: the filters that a query's criteria and namespace are turned into.
pub mod Meaning
pub mod Algebra
pub mod Errors
pub mod Namespace
use concat.Base.{
  Text, text_eq, nat_eq, codes, ◌==◌, Bool, true, false, not, Option, none, some, List, [], ◌∷◌,
  ◌++◌, Result, ok, err, panic, query_eval_error, ◌>>=◌, has_prefix, last_byte, drop_last_two,
  if◌then◌else◌,
}
use concat.Base.Int.{ℤ, pos, int_eq, ltb_ℤ, leb_ℤ}
use concat.Base.Dict.{Dict, lookup}
use concat.Query.{Query, QueryCriteria}
use concat.Query.Statement.{Statement, header, statement_refs}

-- A filter that reads the references of a statement panics where the statement has a nil body.
abbrev pub StatementFilter : Type 0
StatementFilter = Statement → Result Bool

abbrev pub ValueSelect : Type 0
ValueSelect = Statement → Text

abbrev id_criteria_filter : ValueSelect
id_criteria_filter stmt = (header stmt).id

abbrev publisher_criteria_filter : ValueSelect
publisher_criteria_filter stmt = (header stmt).publisher

-- The source of a statement is read off as its publisher.
abbrev source_criteria_filter : ValueSelect
source_criteria_filter stmt = (header stmt).publisher

abbrev value_criteria_filter_select : Dict Text ValueSelect
value_criteria_filter_select =
    (codes "id", id_criteria_filter)
    ∷ (codes "publisher", publisher_criteria_filter)
    ∷ (codes "source", source_criteria_filter)
    ∷ []

abbrev value_criteria_eq : Text → Text → Bool
value_criteria_eq a b = a == b

abbrev value_criteria_ne : Text → Text → Bool
value_criteria_ne a b = not (a == b)

abbrev value_criteria_filter_compare : Dict Text (Text → Text → Bool)
value_criteria_filter_compare =
    (codes "=", value_criteria_eq) ∷ (codes "!=", value_criteria_ne) ∷ []

abbrev range_criteria_filter_compare : Dict Text (ℤ → ℤ → Bool)
range_criteria_filter_compare =
    (codes "<=", λ a b. leb_ℤ a b)
    ∷ (codes "<", λ a b. ltb_ℤ a b)
    ∷ (codes "=", λ a b. a == b)
    ∷ (codes "!=", λ a b. not (a == b))
    ∷ (codes ">=", λ a b. leb_ℤ b a)
    ∷ (codes ">", λ a b. ltb_ℤ b a)
    ∷ []

abbrev timestamp_criteria_filter : Statement → ℤ
timestamp_criteria_filter stmt = (header stmt).timestamp

-- The counter is a column of the database, and is read as 0 here.
abbrev counter_criteria_filter : Statement → ℤ
counter_criteria_filter stmt = pos 0

abbrev range_criteria_filter_select : Dict Text (Statement → ℤ)
range_criteria_filter_select =
    (codes "timestamp", timestamp_criteria_filter) ∷ (codes "counter", counter_criteria_filter) ∷ []

abbrev wki_criteria_filter : Statement → Result (List Text)
wki_criteria_filter stmt = statement_refs stmt

index_criteria_contains : List Text → Text → Bool
index_criteria_contains [] val = false
index_criteria_contains (key ∷ keys) val =
    if key == val then true else index_criteria_contains keys val

abbrev index_criteria_filter_select : Dict Text (Statement → Result (List Text))
index_criteria_filter_select = (codes "wki", wki_criteria_filter) ∷ []

-- `&&` and `||` of Go call the right filter only where the left one leaves the answer open.
abbrev compound_criteria_and : Statement → StatementFilter → StatementFilter → Result Bool
compound_criteria_and stmt left right = left stmt >>= λ l. if l then right stmt else ok false

abbrev compound_criteria_or : Statement → StatementFilter → StatementFilter → Result Bool
compound_criteria_or stmt left right = left stmt >>= λ l. if l then ok true else right stmt

abbrev pub compound_criteria_filters :
    Dict Text (Statement → StatementFilter → StatementFilter → Result Bool)
compound_criteria_filters =
    (codes "AND", compound_criteria_and) ∷ (codes "OR", compound_criteria_or) ∷ []

-- `v, ok := m[k]; if !ok { return nil, QueryEvalError(message) }`
abbrev pub entry_or {ℓ} : {A : Type ℓ} → Option A → Text → Result A
entry_or none message = err (query_eval_error message)
entry_or (some a) message = ok a

unfoldable pub make_criteria_filter_f : QueryCriteria → Result StatementFilter
unfolding index_criteria_contains
make_criteria_filter_f (QueryCriteria.value op sel val) = do
  getf ←
      entry_or (lookup value_criteria_filter_select sel)
        (codes "Unexpected criteria selector: " ++ sel)
  cmpf ←
      entry_or (lookup value_criteria_filter_compare op)
        (codes "Unexpected criteria operator: " ++ op)
  ok (λ stmt. ok (cmpf (getf stmt) val))
make_criteria_filter_f (QueryCriteria.range op sel val) = do
  getf ←
      entry_or (lookup range_criteria_filter_select sel)
        (codes "Unexpected criteria selector: " ++ sel)
  filter ←
      entry_or (lookup range_criteria_filter_compare op)
        (codes "Unexpected criteria range op: " ++ op)
  ok (λ stmt. ok (filter (getf stmt) val))
make_criteria_filter_f (QueryCriteria.index sel val) = do
  getf ←
      entry_or (lookup index_criteria_filter_select sel)
        (codes "Unexpected index selector: " ++ sel)
  ok (λ stmt. getf stmt >>= λ keys. ok (index_criteria_contains keys val))
make_criteria_filter_f (QueryCriteria.compound op c_left c_right) = do
  filter ←
      entry_or (lookup compound_criteria_filters op)
        (codes "Unexpected criteria combinator: " ++ op)
  left ← make_criteria_filter_f c_left
  right ← make_criteria_filter_f c_right
  ok (λ stmt. filter stmt left right)
make_criteria_filter_f (QueryCriteria.negated e) = do
  filter ← make_criteria_filter_f e
  ok (λ stmt. filter stmt >>= λ b. ok (not b))

unfoldable pub empty_filter : StatementFilter
empty_filter stmt = ok true

unfoldable pub make_criteria_filter : Query → Result StatementFilter
unfolding empty_filter
make_criteria_filter query = elim query.criteria [
  | none ↦ ok empty_filter
  | some c ↦ make_criteria_filter_f c
]

-- `ns[len(ns)-1]` and `ns[:len(ns)-2]` panic where the string is too short.
unfoldable pub make_namespace_filter : Query → Result StatementFilter
unfolding empty_filter
make_namespace_filter query =
    let ns = query.namespace in
    if ns == codes "*" then ok empty_filter else (elim (last_byte ns) [
      | none ↦ panic
      | some c ↦
          if c == b'*'
          then (elim (drop_last_two ns) [
            | none ↦ panic
            | some prefix ↦ ok (λ stmt. ok (has_prefix (header stmt).namespace prefix))
          ])
          else ok (λ stmt. ok ((header stmt).namespace == ns))
    ])
