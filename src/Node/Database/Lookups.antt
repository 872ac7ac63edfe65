-- ===== src/Node/Database/Lookups.antt =====
-- Deletions and lookups of the statement database on its content.
use concat.Base.{
  ℕ, ◌+◌, Text, text_eq, ◌≡◌, refl, subst, arith, Option, none, some, List, [], ◌∷◌, Result, ok,
  err, panic, no_rows, unknown_statement, bad_query, ◌>>=◌, >>=-eq-ok, length, All,
}
use concat.Query.{Query, Op, select, delete}
use concat.Query.Statement.{Statement}
use concat.Node.Database.{
  Sql, Coding, StreamValue, string_value, statement_value, failure, other_value, transaction,
  within, found, get, delete_statement, delete_statements, delete_matching,
}
use concat.Node.Database.Tables.{Tables, update, IsSql, Content, Rows, Holds, IsCoding}
use concat.Node.Database.Refined.{deleted-Holds, absent}
use concat.Node.Database.Contents.{Ends, transaction-Ends, within-eq-ok}

-- A content without some identifiers.
unfoldable pub delete_spec : List StreamValue → Content → Content
delete_spec [] m = m
delete_spec (string_value id ∷ rest) m = delete_spec rest (update m id none)
delete_spec (statement_value s ∷ rest) m = m
delete_spec (failure e ∷ rest) m = m
delete_spec (other_value ∷ rest) m = m

-- A result of a query that is an identifier.
abbrev pub IsId : StreamValue → Type 0
IsId (string_value id) = Unit
IsId (statement_value s) = ⊥
IsId (failure e) = ⊥
IsId other_value = ⊥

module _ {Db : Type 0} (sql : Sql Db) (coding : Coding) (view : Db → Tables)
    (laws : IsSql sql view) where
  abbrev Deleted : List StreamValue → ℕ → Content → ℕ → Db → Type 0
  Deleted ids count m n db' =
      All IsId ids × (n ≡ count + length ids) × Holds coding (view db') (delete_spec ids m)

  delete_statements-Deleted :
      (ids : List StreamValue) (count : ℕ) (m : Content) (tx : Db) (n : ℕ) (tx' : Db)
      → delete_statements sql coding ids count tx ≡ ok (n, tx')
      → Holds coding (view tx) m
      → Deleted ids count m n tx'
  unfolding delete_statements delete_spec
  delete_statements-Deleted [] count m tx n tx' e h =
      let is : tx ≡ tx' = ground arith in
      (tt, ground arith, subst (λ t. Holds coding (view t) m) is h)
  delete_statements-Deleted (string_value id ∷ rest) count m tx n tx' e h =
      let (tx1, e1, e2) = >>=-eq-ok (delete_statement sql coding id tx) _ e in
      let (strings, counted, holds) =
        delete_statements-Deleted rest (count + 1) (update m id none) tx1 n tx' e2
          (deleted-Holds sql coding view laws id m tx tx1 e1 h) in
      ((tt, strings), omega (arith, counted), holds)
  delete_statements-Deleted (failure x ∷ rest) count m tx n tx' e h = ground arith
  delete_statements-Deleted (statement_value s ∷ rest) count m tx n tx' e h = ground arith
  delete_statements-Deleted (other_value ∷ rest) count m tx n tx' e h = ground arith

  abbrev pub DeleteDone :
      (Query → Db → Result (List StreamValue)) → Query → Content → Db → ℕ → Db → Type 0
  DeleteDone query_stream q m db n db' =
      (q.op ≡ delete)
      × (ids : List StreamValue) × (query_stream q db ≡ ok ids)
      × All IsId ids
      × (n ≡ length ids)
      × Holds coding (view db') (delete_spec ids m)

  -- A deletion succeeds for a DELETE query alone, whose results are all identifiers; then the tables
  -- hold the content without exactly these identifiers, and the result is their number. On any
  -- failure, also at a result that is no identifier after others were deleted, the database is the
  -- one from before.
  pub delete_matching-DeleteDone :
      (query_stream : Query → Db → Result (List StreamValue)) (q : Query) (m : Content) (db : Db)
      → Holds coding (view db) m
      → Ends (DeleteDone query_stream q m db) db (delete_matching sql coding query_stream q db)
  unfolding delete_matching
  delete_matching-DeleteDone query_stream q m db h = go q.op refl
    where
      go :
          (o : Op)
          → q.op ≡ o
          → Ends (DeleteDone query_stream q m db) db (elim o [
            | select ↦ (err bad_query, db)
            | delete ↦
                transaction
                  (query_stream q db >>= λ ids.
                    within sql coding (delete_statements sql coding ids 0) db)
                  db
          ])
      go select is = refl
      go delete is = transaction-Ends (DeleteDone query_stream q m db) _ db (λ n db' e.
          let (ids, e1, e2) = >>=-eq-ok (query_stream q db) _ e in
          let (strings, counted, holds) =
            delete_statements-Deleted ids 0 m db n db'
              (within-eq-ok sql coding view laws (delete_statements sql coding ids 0) db n db' e2)
              h in
          (is, ids, e1, strings, omega (arith, counted), holds))

  abbrev pub Got : Option Statement → Result Statement → Type 0
  Got o (ok s) = o ≡ some s
  Got o (err unknown_statement) = o ≡ none
  Got o (err e) = Unit
  Got o panic = Unit

  -- A lookup in tables that hold a content finds the statement that the content has for the
  -- identifier, where it returns one; where it fails as for an unknown statement, there is none. The
  -- coding decodes what it has encoded.
  pub get-Got :
      IsCoding coding
      → (id : Text) (m : Content) (db : Db) → Holds coding (view db) m
      → Got (m id) (get sql coding id db)
  unfolding get found
  get-Got lawful id m db h = selected (sql.select_stmt_data id db) refl (m id) (h id)
    where
      selected :
          (r : Result Text)
          → sql.select_stmt_data id db ≡ r
          → (o : Option Statement) → Rows coding (view db) id o
          → Got o (found sql coding r)
      selected (ok bytes) e none (d, _, _) =
          let there = laws.data_selected id bytes db e in ground (arith, d, there)
      selected (ok bytes) e (some s) (bytes', _, _, _, me, _, _, d, _, _) =
          let there = laws.data_selected id bytes db e in
          let same : bytes' ≡ bytes = ground (arith, d, there) in
          rw (lawful s bytes (rw (← same) me)) refl
      selected (err no_rows) e o rows =
          absent sql coding view laws (view db) id o rows (laws.data_missing id db e)
      selected (err unknown_statement) e o rows = absurd (laws.select_failed id db e)
      selected (err x) e o rows = ground arith
      selected panic e o rows = tt
