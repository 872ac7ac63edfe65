-- ===== src/Node/Database/Stream.antt =====
-- mcnode/db.go: QueryStream. database/sql and SQLite are a parameter: the rows of the text of a query.
use concat.Base.{
  ◌≡◌, refl, ap, ◌∙◌, Text, text_eq, text_dec, codes, none, some, List, [], ◌∷◌, ◌++◌, map, Error,
  Result, ok, err, panic, ◌>>=◌, >>=-eq-ok, arith, inl, inr, ◌⊎◌,
}
use concat.Base.Int.{ℤ, pos, int_eq}
use concat.Base.Dict.{lookup}
use concat.Query.{Query, QuerySelector, select}
use concat.Query.Statement.{Statement}
use concat.Query.Compile.{compile_query}
use concat.Query.Compile.Kind.{is_statement_query}
use concat.Query.Compile.Clauses.{
  compile_query_columns, compile_query_criteria, compile_query_order,
}
use concat.Query.Compile.Rows.{
  compile_query_row_selector, SimpleRowSelector, RowSelector, Scanned, RowValue, Row, single,
  object, scan, value,
}
use concat.Node.Database.{StreamValue, statement_value, string_value, failure, other_value}

-- What the Scan of a row answers for the pointers of some selectors.
abbrev pub RowSource : Type 0
RowSource = (srs : List SimpleRowSelector) → Result (Scanned srs)

-- The rows that Next goes through for the text of a query, protobuf's decoding of a statement, the text
-- of an error, and `%d`.
pub record Driver : Type 0 where
  pub query : Text → Result (List RowSource)
  pub unmarshal : Text → Result Statement
  pub message : Error → Text
  pub show : ℤ → Text

abbrev pub stream_value : Row → StreamValue
stream_value (single (RowValue.stmt s)) = statement_value s
stream_value (single (RowValue.stmt_body b)) = other_value
stream_value (single (RowValue.string s)) = string_value s
stream_value (single (RowValue.int n)) = other_value
stream_value (single (RowValue.int64 n)) = other_value
stream_value (object obj) = other_value

-- The query `SELECT * FROM *`.
abbrev pub select_all : Query
select_all = record {
  op = select;
  namespace = codes "*";
  selector = some (QuerySelector.simple (codes "*"));
  criteria = none;
  order = none;
  limit = pos 0;
}

module _ (driver : Driver) where
  -- The loop over the rows, for a reader that takes every value. The first row that cannot be scanned
  -- is the last one.
  unfoldable pub stream_rows : RowSelector → List RowSource → Result (List StreamValue)
  stream_rows rsel [] = ok []
  stream_rows rsel (row ∷ rows) = elim (scan driver.unmarshal row rsel) [
    | panic ↦ panic
    | err e ↦ ok (failure (driver.message e) ∷ [])
    | ok obj ↦ (stream_rows rsel rows >>= λ rest. ok (stream_value obj ∷ rest))
  ]

  unfoldable pub query_stream : Query → Result (List StreamValue)
  unfolding stream_rows
  query_stream q = do
    (sq, rsel) ← compile_query driver.show q
    rows ← driver.query sq
    stream_rows rsel rows

  -- What a row gives for the pointer to the data of a statement: its encoding, or an error.
  abbrev pub Reads : Statement → Result (Scanned (SimpleRowSelector.statement ∷ [])) → Type 0
  Reads s panic = Unit
  Reads s (err e) = Unit
  Reads s (ok held) = driver.unmarshal (held.0) ≡ ok s

  -- The rows are those of the data of some statements.
  abbrev pub RowsOf : List Statement → List RowSource → Type 0
  RowsOf [] [] = Unit
  RowsOf [] (row ∷ rows) = ⊥
  RowsOf (s ∷ ss) [] = ⊥
  RowsOf (s ∷ ss) (row ∷ rows) = Reads s (row (SimpleRowSelector.statement ∷ [])) × RowsOf ss rows

  -- A database whose table Statement holds the encodings of some statements.
  pub record IsStored (stmts : List Statement) : Type 0 where
    pub selected :
        (rows : List RowSource)
        → driver.query (codes "SELECT data FROM Statement") ≡ ok rows
        → RowsOf stmts rows

  -- Some statements, or fewer of them and a failure.
  abbrev pub Streams : List Statement → List StreamValue → Type 0
  Streams stmts values =
      (values ≡ map statement_value stmts)
      ⊎ ((before : List StreamValue) × (e : Text) × (values ≡ before ++ (failure e ∷ [])))

  stream_rows-Streams :
      (stmts : List Statement) (rows : List RowSource) (values : List StreamValue)
      → RowsOf stmts rows
      → stream_rows (RowSelector.simple SimpleRowSelector.statement) rows ≡ ok values
      → Streams stmts values
  unfolding stream_rows scan value
  stream_rows-Streams [] [] values r e = inl (ground arith)
  stream_rows-Streams [] (row ∷ rows) values r e = absurd r
  stream_rows-Streams (s ∷ ss) [] values r e = absurd r
  stream_rows-Streams (s ∷ ss) (row ∷ rows) values (reads, r) e =
      read (row (SimpleRowSelector.statement ∷ [])) refl reads
        (λ rest e'. stream_rows-Streams ss rows rest r e') e
    where
      rest_of : Result Row → Result (List StreamValue)
      rest_of r = elim r [
        | panic ↦ panic
        | err e ↦ ok (failure (driver.message e) ∷ [])
        | ok obj ↦
            (stream_rows (RowSelector.simple SimpleRowSelector.statement) rows >>= λ rest.
            ok (stream_value obj ∷ rest))
      ]

      read :
          (held : Result (Scanned (SimpleRowSelector.statement ∷ [])))
          → row (SimpleRowSelector.statement ∷ []) ≡ held
          → Reads s held
          → ((rest : List StreamValue)
              → stream_rows (RowSelector.simple SimpleRowSelector.statement) rows ≡ ok rest
              → Streams ss rest)
          → rest_of (scan driver.unmarshal row (RowSelector.simple SimpleRowSelector.statement))
            ≡ ok values
          → Streams (s ∷ ss) values
      read panic eh reads more i =
          let is : rest_of panic ≡ ok values = rw eh at i in ground (arith, is)
      read (err x) eh reads more i =
          let is : rest_of (err x) ≡ ok values = rw eh at i in
          inr ([], driver.message x, ground (arith, is))
      read (ok (raw, held)) eh reads more i =
          let is : rest_of (ok (single (RowValue.stmt s))) ≡ ok values = rw (eh, reads) at i in
          let (rest, e1, e2) =
            >>=-eq-ok (stream_rows (RowSelector.simple SimpleRowSelector.statement) rows) _ is in
          let whole : values ≡ statement_value s ∷ rest = ground (arith, e2) in
          elim (more rest e1) [
            | inl all ↦ inl (whole ∙ ap (λ l. statement_value s ∷ l) all)
            | inr (before, x, cut) ↦
                inr (statement_value s ∷ before, x, whole ∙ ap (λ l. statement_value s ∷ l) cut)
          ]

  compile-select_all :
      compile_query driver.show select_all
      ≡ ok (codes "SELECT data FROM Statement", RowSelector.simple SimpleRowSelector.statement)
  unfolding compile_query compile_query_columns compile_query_criteria text_dec
      compile_query_row_selector lookup is_statement_query compile_query_order
  compile-select_all = refl

  pub query_stream-Streams :
      (stmts : List Statement) (values : List StreamValue)
      → IsStored stmts
      → query_stream select_all ≡ ok values
      → Streams stmts values
  unfolding query_stream
  query_stream-Streams stmts values is e =
      let ran : (driver.query (codes "SELECT data FROM Statement") >>= λ rows.
      stream_rows (RowSelector.simple SimpleRowSelector.statement) rows)
          ≡ ok values =
        rw compile-select_all at e in
      let (rows, e1, e2) = >>=-eq-ok (driver.query (codes "SELECT data FROM Statement")) _ ran in
      stream_rows-Streams stmts rows values (is.selected rows e1) e2
