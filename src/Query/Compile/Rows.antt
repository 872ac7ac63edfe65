-- ===== src/Query/Compile/Rows.antt =====
-- mc/query/compile.go: the row selectors, which read the values of a row of the SQL result.
use concat.Base.{
  Text, text_eq, codes, Option, none, some, List, [], ◌∷◌, ◌++◌, Result, ok, err,
  query_compile_error, ◌>>=◌, join,
}
use concat.Base.Int.{ℤ, pos}
use concat.Base.Dict.{Dict, lookup, put}
use concat.Query.{QuerySelector}
use concat.Query.Statement.{Statement, StatementBody}

-- The implementations of SimpleRowSelector. `string` is RowSelectString, and so on.
pub data SimpleRowSelector : Type 0 where
  statement body string int int64 null_int64 : SimpleRowSelector

pub data RowSelector : Type 0 where
  simple : SimpleRowSelector → RowSelector
  compound : List Text → List SimpleRowSelector → RowSelector

abbrev make_simple_row_selector : Dict Text SimpleRowSelector
make_simple_row_selector =
    (codes "*", SimpleRowSelector.statement)
    ∷ (codes "body", SimpleRowSelector.body)
    ∷ (codes "id", SimpleRowSelector.string)
    ∷ (codes "namespace", SimpleRowSelector.string)
    ∷ (codes "publisher", SimpleRowSelector.string)
    ∷ (codes "source", SimpleRowSelector.string)
    ∷ (codes "timestamp", SimpleRowSelector.int64)
    ∷ (codes "counter", SimpleRowSelector.int64)
    ∷ []

abbrev make_fun_row_selector : Dict Text SimpleRowSelector
make_fun_row_selector =
    (codes "COUNT", SimpleRowSelector.int)
    ∷ (codes "MIN", SimpleRowSelector.null_int64)
    ∷ (codes "MAX", SimpleRowSelector.null_int64)
    ∷ []

abbrev maker : Option SimpleRowSelector → Text → Result SimpleRowSelector
maker none message = err (query_compile_error message)
maker (some make) message = ok make

-- A list of strings under `%s`.
abbrev list_text : List Text → Text
list_text sel = codes "[" ++ (join sel (codes " ") ++ codes "]")

-- The loop of the compound case; `message` is the text of its error.
unfoldable pub compound_selectors : Text → List Text → Result (List SimpleRowSelector)
compound_selectors message [] = ok []
compound_selectors message (ssel ∷ sel) = do
  make ← maker (lookup make_simple_row_selector ssel) message
  rest ← compound_selectors message sel
  ok (make ∷ rest)

unfoldable pub compile_query_row_selector : Option QuerySelector → Result RowSelector
unfolding compound_selectors
compile_query_row_selector none =
    err (query_compile_error (codes "Unexpected selector type: <nil>"))
compile_query_row_selector (some (QuerySelector.simple sel)) = do
  make ← maker (lookup make_simple_row_selector sel) (codes "Unexpected selector: " ++ sel)
  ok (RowSelector.simple make)
compile_query_row_selector (some (QuerySelector.compound sel)) = do
  srs ← compound_selectors (codes "Unexpected selector: " ++ list_text sel) sel
  ok (RowSelector.compound sel srs)
compile_query_row_selector (some (QuerySelector.function sel)) = do
  make ← maker (lookup make_fun_row_selector sel.op) (codes "Unexpected function: " ++ sel.op)
  ok (RowSelector.simple make)

-- The selectors whose `ptr` is handed to the Scan of the row.
abbrev pub pointers : RowSelector → List SimpleRowSelector
pointers (RowSelector.simple sr) = sr ∷ []
pointers (RowSelector.compound sel srs) = srs

-- What the pointer of a selector points at, once the Scan of a row has filled it.
abbrev pub Held : SimpleRowSelector → Type 0
Held statement = Text
Held body = Text
Held string = Text
Held int = ℤ
Held int64 = ℤ
Held null_int64 = Option ℤ

abbrev pub Scanned : List SimpleRowSelector → Type 0
Scanned [] = Unit
Scanned (sr ∷ srs) = Held sr × Scanned srs

-- The values of a row, of type `interface{}`.
pub data RowValue : Type 0 where
  stmt : Statement → RowValue
  stmt_body : StatementBody → RowValue
  string : Text → RowValue
  int : ℤ → RowValue
  int64 : ℤ → RowValue

pub data Row : Type 0 where
  single : RowValue → Row
  object : Dict Text RowValue → Row

module _ (unmarshal : Text → Result Statement) where
  -- The methods `value`. The 0 that stands for NULL is an `int`.
  unfoldable pub value : (sr : SimpleRowSelector) → Held sr → Result RowValue
  value statement raw = do s ← unmarshal raw; ok (stmt s)
  value body raw = do s ← unmarshal raw; ok (stmt_body (concat.Query.Statement.body s))
  value string val = ok (RowValue.string val)
  value int val = ok (RowValue.int val)
  value int64 val = ok (RowValue.int64 val)
  value null_int64 (some val) = ok (RowValue.int64 val)
  value null_int64 none = ok (RowValue.int (pos 0))

  -- The loop of RowSelectCompound.Scan, over the selectors' names and values together.
  unfoldable pub scan_fields :
      Dict Text RowValue
      → List Text
      → (srs : List SimpleRowSelector) → Scanned srs
      → Result (Dict Text RowValue)
  unfolding value
  scan_fields obj (sel ∷ rest) (sr ∷ srs) (held, more) = do
    val ← value sr held
    scan_fields (put obj sel val) rest srs more
  scan_fields obj [] srs held = ok obj
  scan_fields obj (sel ∷ rest) [] held = ok obj

  -- Scan, where the Scan of the row answers for the pointers.
  unfoldable pub scan :
      ((srs : List SimpleRowSelector) → Result (Scanned srs)) → RowSelector → Result Row
  unfolding scan_fields value
  scan src (RowSelector.simple sr) = do
    held ← src (sr ∷ [])
    val ← value sr (held.0)
    ok (single val)
  scan src (RowSelector.compound sel srs) = do
    held ← src srs
    obj ← scan_fields [] sel srs held
    ok (object obj)
