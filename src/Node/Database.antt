-- ===== src/Node/Database.antt =====
-- mcnode/db.go: the statement database. database/sql and SQLite are a parameter: the prepared
-- statements, which change the tables of a transaction, and the transactions. A transaction that is not
-- committed, for an error, a failed commit or a panic, leaves the tables from before.
pub mod Tables
pub mod Stream
pub mod Refined
pub mod Contents
pub mod Lookups
use concat.Base.{
  ℕ, ◌+◌, Text, text_eq, ◌==◌, Bool, true, false, Option, none, some, List, [], ◌∷◌, Error, Result,
  ok, err, panic, bad_query, bad_result, stream_error, primary_key_taken, no_rows, no_result,
  unknown_statement, ◌>>=◌, if◌then◌else◌,
}
use concat.Base.Int.{ℤ}
use concat.Query.{Op, select, delete, Query}
use concat.Query.Statement.{Statement, header, statement_refs, statement_source}

-- A row of the table Envelope, but for its counter.
pub record Envelope : Type 0 where
  pub id : Text
  pub namespace : Text
  pub publisher : Text
  pub source : Text
  pub timestamp : ℤ

-- `begin` and `commit` fail or succeed.
pub record Sql (Db : Type 0) : Type 0 where
  pub begin : Db → Option Error
  pub commit : Db → Option Error
  pub insert_stmt_data : Text → Text → Db → Result Db
  pub insert_stmt_envelope : Envelope → Db → Result Db
  pub insert_stmt_refs : Text → Text → Db → Result Db
  pub select_stmt_data : Text → Db → Result Text
  pub delete_stmt_data : Text → Db → Result Db
  pub delete_stmt_envelope : Text → Db → Result Db
  pub delete_stmt_refs : Text → Db → Result Db

-- protobuf's coding of statements.
pub record Coding : Type 0 where
  pub marshal : Statement → Result Text
  pub unmarshal : Text → Result Statement

-- What a channel of query results delivers.
pub data StreamValue : Type 0 where
  statement_value : Statement → StreamValue
  string_value : Text → StreamValue
  failure : Text → StreamValue
  other_value : StreamValue

-- The arguments of insertStmtEnvelope for a statement and its source.
abbrev pub envelope_row : Statement → Text → Envelope
envelope_row stmt source = record {
  id = (header stmt).id;
  namespace = (header stmt).namespace;
  publisher = (header stmt).publisher;
  source = source;
  timestamp = (header stmt).timestamp;
}

-- `tx.Rollback(); return value, err`, or what the transaction gives.
abbrev pub transaction : {Db A : Type 0} → Result (A × Db) → Db → Result A × Db
transaction (ok (a, db')) db = (ok a, db')
transaction (err e) db = (err e, db)
transaction panic db = (panic, db)

-- `err := tx.Commit()` behind the work of a transaction.
abbrev pub committed : {A : Type 0} → Option Error → A → Result A
committed none a = ok a
committed (some e) a = err e

module _ {Db : Type 0} (sql : Sql Db) (coding : Coding) where
  -- The loop over the references of a statement.
  unfoldable pub insert_refs : Text → List Text → Db → Result Db
  insert_refs id [] tx = ok tx
  insert_refs id (wki ∷ refs) tx = do tx' ← sql.insert_stmt_refs id wki tx; insert_refs id refs tx'

  -- The rows of a statement beside its data.
  unfoldable pub insert_rest : Statement → Db → Result Db
  unfolding insert_refs
  insert_rest stmt tx = do
    source ← statement_source stmt
    tx1 ← sql.insert_stmt_envelope (envelope_row stmt source) tx
    refs ← statement_refs stmt
    insert_refs (header stmt).id refs tx1

  -- All rows of a statement with its bytes.
  unfoldable pub insert_row : Statement → Text → Db → Result Db
  unfolding insert_rest
  insert_row stmt bytes tx = do
    tx1 ← sql.insert_stmt_data (header stmt).id bytes tx
    insert_rest stmt tx1

  -- A round of PutBatch.
  unfoldable pub insert_statement : Statement → Db → Result Db
  unfolding insert_row
  insert_statement stmt tx = do bytes ← coding.marshal stmt; insert_row stmt bytes tx

  unfoldable pub insert_statements : List Statement → Db → Result Db
  insert_statements [] tx = ok tx
  insert_statements (stmt ∷ stmts) tx = do
    tx' ← insert_statement stmt tx
    insert_statements stmts tx'

  -- A transaction: begin, the work, and the commit.
  unfoldable pub within : {A : Type 0} → (Db → Result (A × Db)) → Db → Result (A × Db)
  within work db = do
    _ ← committed (sql.begin db) tt
    (a, db') ← work db
    _ ← committed (sql.commit db') tt
    ok (a, db')

  -- Put, which marshals before the transaction.
  unfoldable pub put : Statement → Db → Result (Unit {0}) × Db
  unfolding within insert_row
  put stmt db =
      transaction
        (coding.marshal stmt >>= λ bytes.
          within (λ tx. insert_row stmt bytes tx >>= λ tx'. ok (tt, tx')) db)
        db

  unfoldable pub put_batch : List Statement → Db → Result (Unit {0}) × Db
  unfolding within insert_statements
  put_batch stmts db =
      transaction (within (λ tx. insert_statements stmts tx >>= λ tx'. ok (tt, tx')) db) db

  -- The data of a statement in MergeBatch: inserted, or there already.
  unfoldable pub insert_unless_there : Result Db → Db → Result (Bool × Db)
  insert_unless_there (ok tx') tx = ok (true, tx')
  insert_unless_there (err primary_key_taken) tx = ok (false, tx)
  insert_unless_there (err e) tx = err e
  insert_unless_there panic tx = panic

  -- A round of MergeBatch: whether the statement is new.
  unfoldable pub merge_statement : Statement → Db → Result (Bool × Db)
  unfolding insert_unless_there insert_rest
  merge_statement stmt tx = do
    bytes ← coding.marshal stmt
    (new, tx1) ← insert_unless_there (sql.insert_stmt_data (header stmt).id bytes tx) tx
    if new then (insert_rest stmt tx1 >>= λ tx2. ok (true, tx2)) else ok (false, tx1)

  unfoldable pub merge_statements : List Statement → ℕ → Db → Result (ℕ × Db)
  merge_statements [] count tx = ok (count, tx)
  merge_statements (stmt ∷ stmts) count tx = do
    (new, tx') ← merge_statement stmt tx
    merge_statements stmts (if new then count + 1 else count) tx'

  unfoldable pub merge_batch : List Statement → Db → Result ℕ × Db
  unfolding within merge_statements
  merge_batch stmts db = transaction (within (merge_statements stmts 0) db) db

  -- Merge of SQLiteDB
  unfoldable pub merged : Result (Unit {0}) → Result Bool
  merged (ok u) = ok true
  merged (err primary_key_taken) = ok false
  merged (err e) = err e
  merged panic = panic

  unfoldable pub merge : Statement → Db → Result Bool × Db
  unfolding put merged
  merge stmt db = let (done, db') = put stmt db in (merged done, db')

  unfoldable pub found : Result Text → Result Statement
  found (ok bytes) = coding.unmarshal bytes
  found (err no_rows) = err unknown_statement
  found (err e) = err e
  found panic = panic

  unfoldable pub get : Text → Db → Result Statement
  unfolding found
  get id db = found (sql.select_stmt_data id db)

  unfoldable pub delete_statement : Text → Db → Result Db
  delete_statement id tx = do
    tx1 ← sql.delete_stmt_data id tx
    tx2 ← sql.delete_stmt_envelope id tx1
    sql.delete_stmt_refs id tx2

  -- The loop of Delete over the results of its query.
  unfoldable pub delete_statements : List StreamValue → ℕ → Db → Result (ℕ × Db)
  unfolding delete_statement
  delete_statements [] count tx = ok (count, tx)
  delete_statements (string_value id ∷ rest) count tx = do
    tx' ← delete_statement id tx
    delete_statements rest (count + 1) tx'
  delete_statements (failure e ∷ rest) count tx = err (stream_error e)
  delete_statements (statement_value s ∷ rest) count tx = err bad_result
  delete_statements (other_value ∷ rest) count tx = err bad_result

  -- Delete; `query_stream` gives the results of a query on the tables.
  unfoldable pub delete_matching :
      (Query → Db → Result (List StreamValue)) → Query → Db → Result ℕ × Db
  unfolding within delete_statements
  delete_matching query_stream q db = elim q.op [
    | select ↦ (err bad_query, db)
    | delete ↦ transaction (query_stream q db >>= λ ids. within (delete_statements ids 0) db) db
  ]
