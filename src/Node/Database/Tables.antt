-- ===== src/Node/Database/Tables.antt =====
-- What the node relies on of SQLite, on the tables Statement, Envelope and Refs of createTables, and
-- the contents of a database as the statement that each identifier has.
use concat.Base.{
  Text, text_eq, ◌==◌, ◌≡◌, ◌≢◌, Option, none, some, List, [], ◌∷◌, ◌++◌, ok, err,
  primary_key_taken, no_rows, unknown_statement, if◌then◌else◌,
}
use concat.Query.Statement.{Statement, header, statement_refs, statement_source}
use concat.Node.Database.{Envelope, Sql, Coding, envelope_row}

-- The tables, each by the column `id`.
pub record Tables : Type 0 where
  pub data_of : Text → Option Text
  pub envelope_of : Text → Option Envelope
  pub refs_of : Text → List Text

abbrev pub update {ℓ} : {A : Type ℓ} → (Text → A) → Text → A → Text → A
update f id a j = if j == id then a else f j

abbrev pub with_data : Tables → Text → Option Text → Tables
with_data t id v = record {
  data_of = update t.data_of id v;
  envelope_of = t.envelope_of;
  refs_of = t.refs_of;
}

abbrev pub with_envelope : Tables → Text → Option Envelope → Tables
with_envelope t id v = record {
  data_of = t.data_of;
  envelope_of = update t.envelope_of id v;
  refs_of = t.refs_of;
}

abbrev pub with_refs : Tables → Text → List Text → Tables
with_refs t id v = record {
  data_of = t.data_of;
  envelope_of = t.envelope_of;
  refs_of = update t.refs_of id v;
}

-- The prepared statements on the tables that a view shows. Statement has a primary key and Envelope
-- a unique index; any statement may fail otherwise.
pub record IsSql {Db : Type 0} (sql : Sql Db) (view : Db → Tables) : Type 0 where
  pub data_inserted :
      (id bytes : Text) (tx tx' : Db)
      → sql.insert_stmt_data id bytes tx ≡ ok tx'
      → ((view tx).data_of id ≡ none) × (view tx' ≡ with_data (view tx) id (some bytes))
  pub data_taken :
      (id bytes : Text) (tx : Db)
      → sql.insert_stmt_data id bytes tx ≡ err primary_key_taken
      → (view tx).data_of id ≢ none
  pub envelope_inserted :
      (row : Envelope) (tx tx' : Db)
      → sql.insert_stmt_envelope row tx ≡ ok tx'
      → view tx' ≡ with_envelope (view tx) row.id (some row)
  pub refs_inserted :
      (id wki : Text) (tx tx' : Db)
      → sql.insert_stmt_refs id wki tx ≡ ok tx'
      → view tx' ≡ with_refs (view tx) id ((view tx).refs_of id ++ (wki ∷ []))
  pub data_selected :
      (id bytes : Text) (tx : Db)
      → sql.select_stmt_data id tx ≡ ok bytes
      → (view tx).data_of id ≡ some bytes
  pub data_missing :
      (id : Text) (tx : Db) → sql.select_stmt_data id tx ≡ err no_rows → (view tx).data_of id ≡ none
  pub select_failed : (id : Text) (tx : Db) → sql.select_stmt_data id tx ≢ err unknown_statement
  pub data_deleted :
      (id : Text) (tx tx' : Db)
      → sql.delete_stmt_data id tx ≡ ok tx'
      → view tx' ≡ with_data (view tx) id none
  pub envelope_deleted :
      (id : Text) (tx tx' : Db)
      → sql.delete_stmt_envelope id tx ≡ ok tx'
      → view tx' ≡ with_envelope (view tx) id none
  pub refs_deleted :
      (id : Text) (tx tx' : Db)
      → sql.delete_stmt_refs id tx ≡ ok tx'
      → view tx' ≡ with_refs (view tx) id []

-- The abstract database: the statement of each identifier.
abbrev pub Content : Type 0
Content = Text → Option Statement

-- The rows of an identifier are those of its statement, or there are none.
abbrev pub Rows : Coding → Tables → Text → Option Statement → Type 0
Rows coding t id none = (t.data_of id ≡ none) × (t.envelope_of id ≡ none) × (t.refs_of id ≡ [])
Rows coding t id (some s) =
    (bytes : Text) × (source : Text) × (refs : List Text) × ((header s).id ≡ id)
    × (coding.marshal s ≡ ok bytes)
    × (statement_source s ≡ ok source)
    × (statement_refs s ≡ ok refs)
    × (t.data_of id ≡ some bytes)
    × (t.envelope_of id ≡ some (envelope_row s source))
    × (t.refs_of id ≡ refs)

-- The tables hold a content.
abbrev pub Holds : Coding → Tables → Content → Type 0
Holds coding t m = (id : Text) → Rows coding t id (m id)

-- protobuf decodes what it has encoded.
abbrev pub IsCoding : Coding → Type 0
IsCoding coding =
    (s : Statement) (bytes : Text) → coding.marshal s ≡ ok bytes → coding.unmarshal bytes ≡ ok s
