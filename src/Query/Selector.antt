-- ===== src/Query/Selector.antt =====
-- mc/query/eval.go: the values that a query selects from a statement, and the functions on them.
pub mod Extremes
use concat.Base.{
  ℕ, Text, text_eq, codes, ◌==◌, Eq, Bool, true, false, Option, none, some, List, [], ◌∷◌, Result,
  ok, panic, ◌>>=◌, length, contains, if◌then◌else◌,
}
use concat.Base.Int.{ℤ, pos, int_dec, ltb_ℤ}
use concat.Base.Dict.{Dict, lookup}
use concat.Query.{FunctionSelector}
use concat.Query.Statement.{Statement, header, statement_source}
use native.Mathlib.Decide.{ℕ_discrete}

-- The values of type `interface{}` that a simple selector yields; a pointer is its address.
pub data Scalar : Type 0 where
  int : ℤ → Scalar
  int64 : ℤ → Scalar
  string : Text → Scalar
  stmt_ptr : ℕ → Scalar
  body_ptr : ℕ → Scalar

unfoldable pub scalar_dec : Discrete Scalar
unfolding ℕ_discrete
scalar_dec = hlevel ℕ_discrete

instance abbrev pub scalar_eq : Eq Scalar
scalar_eq = record { dec = scalar_dec }

-- A selector panics where it reads the source of a statement with a nil body.
abbrev pub StatementSelector : Type 0
StatementSelector = Statement → Result Scalar

abbrev simple_selector_all : StatementSelector
simple_selector_all stmt = ok (stmt_ptr (header stmt).addr)

abbrev simple_selector_body : StatementSelector
simple_selector_body stmt = ok (body_ptr (header stmt).body_addr)

abbrev simple_selector_id : StatementSelector
simple_selector_id stmt = ok (string (header stmt).id)

abbrev simple_selector_publisher : StatementSelector
simple_selector_publisher stmt = ok (string (header stmt).publisher)

abbrev simple_selector_namespace : StatementSelector
simple_selector_namespace stmt = ok (string (header stmt).namespace)

abbrev simple_selector_source : StatementSelector
simple_selector_source stmt = statement_source stmt >>= λ source. ok (string source)

abbrev simple_selector_timestamp : StatementSelector
simple_selector_timestamp stmt = ok (int64 (header stmt).timestamp)

-- The literal 0 is an `int`, not an `int64`.
abbrev simple_selector_counter : StatementSelector
simple_selector_counter stmt = ok (int (pos 0))

abbrev pub simple_selectors : Dict Text StatementSelector
simple_selectors =
    (codes "*", simple_selector_all)
    ∷ (codes "body", simple_selector_body)
    ∷ (codes "id", simple_selector_id)
    ∷ (codes "publisher", simple_selector_publisher)
    ∷ (codes "namespace", simple_selector_namespace)
    ∷ (codes "source", simple_selector_source)
    ∷ (codes "timestamp", simple_selector_timestamp)
    ∷ (codes "counter", simple_selector_counter)
    ∷ []

-- A function panics where a type assertion `.(int64)` fails.
abbrev pub FunctionStatementSelector : Type 0
FunctionStatementSelector = List Scalar → Result (List Scalar)

abbrev pub int_of : ℕ → ℤ
int_of n = pos n

unfoldable pub count_function_selector : FunctionStatementSelector
count_function_selector res = ok (int (int_of (length res)) ∷ [])

abbrev pub as_int64 : Scalar → Result ℤ
as_int64 (int64 n) = ok n
as_int64 (int n) = panic
as_int64 (string s) = panic
as_int64 (stmt_ptr p) = panic
as_int64 (body_ptr p) = panic

-- The loop of minFunctionSelector over `res[1:]`.
unfoldable pub min_loop : ℤ → List Scalar → Result ℤ
min_loop min [] = ok min
min_loop min (val ∷ rest) = do
  xval ← as_int64 val
  min_loop (if ltb_ℤ xval min then xval else min) rest

unfoldable pub min_function_selector : FunctionStatementSelector
unfolding min_loop
min_function_selector [] = ok (int (pos 0) ∷ [])
min_function_selector (val ∷ rest) = do
  first ← as_int64 val
  min ← min_loop first rest
  ok (int64 min ∷ [])

-- The loop of maxFunctionSelector over `res[1:]`.
unfoldable pub max_loop : ℤ → List Scalar → Result ℤ
max_loop max [] = ok max
max_loop max (val ∷ rest) = do
  xval ← as_int64 val
  max_loop (if ltb_ℤ max xval then xval else max) rest

unfoldable pub max_function_selector : FunctionStatementSelector
unfolding max_loop
max_function_selector [] = ok (int (pos 0) ∷ [])
max_function_selector (val ∷ rest) = do
  first ← as_int64 val
  max ← max_loop first rest
  ok (int64 max ∷ [])

abbrev pub function_selectors : Dict Text FunctionStatementSelector
function_selectors =
    (codes "COUNT", count_function_selector)
    ∷ (codes "MIN", min_function_selector)
    ∷ (codes "MAX", max_function_selector)
    ∷ []

abbrev pub function_allowed_selectors : Dict Text (List Text)
function_allowed_selectors =
    (
      codes "COUNT",
      codes "*"
          ∷ codes "body"
          ∷ codes "id"
          ∷ codes "publisher"
          ∷ codes "namespace"
          ∷ codes "source"
          ∷ codes "timestamp"
          ∷ codes "counter"
          ∷ [],
    )
    ∷ (codes "MIN", codes "timestamp" ∷ codes "counter" ∷ [])
    ∷ (codes "MAX", codes "timestamp" ∷ codes "counter" ∷ [])
    ∷ []

unfoldable pub check_function_selector : FunctionSelector → Bool
check_function_selector sel = elim (lookup function_allowed_selectors sel.op) [
  | none ↦ false
  | some valid ↦ contains valid sel.sel
]
