-- ===== src/Query/Statement.antt =====
-- proto/stmt.proto and mc/query/stmt.go: statements, their references and their source.
pub mod Refs
pub mod Source
use concat.Base.{
  ℕ, Text, text_eq, ◌==◌, Option, none, some, List, [], ◌∷◌, Result, ok, panic, ◌>>=◌, insert,
}
use concat.Base.Int.{ℤ}

-- SimpleStatement
pub record SimpleStatement : Type 0 where
  pub object : Text
  pub refs : List Text
  pub tags : List Text
  pub deps : List Text

-- The scalar fields of Statement. `addr` and `body_addr` are the addresses of the Go objects of
-- the statement and of its body, by which Go compares pointers.
pub record Header : Type 0 where
  pub addr : ℕ
  pub body_addr : ℕ
  pub id : Text
  pub publisher : Text
  pub namespace : Text
  pub timestamp : ℤ
  pub signature : Option Text

-- Statement. `Body` of StatementBody: `nil` is a nil `*StatementBody`, `empty` one whose oneof is
-- unset, and the other constructors are the members of the oneof.
mutual
  pub data Statement : Type 0 where
    statement : Header → StatementBody → Statement

  pub data StatementBody : Type 0 where
    nil : StatementBody
    empty : StatementBody
    simple : SimpleStatement → StatementBody
    compound : List SimpleStatement → StatementBody
    envelope : Statements → StatementBody
    archive : StatementBody

  pub data Statements : Type 0 where
    end : Statements
    next : Statement → Statements → Statements

abbrev pub header : Statement → Header
header (statement h b) = h

abbrev pub body : Statement → StatementBody
body (statement h b) = b

-- `refs[wki] = true` for each reference of a simple statement.
pub merge_refs : List Text → List Text → List Text
merge_refs refs [] = refs
merge_refs refs (wki ∷ rest) = merge_refs (insert refs wki) rest

unfoldable pub merge_simple : List Text → SimpleStatement → List Text
unfolding merge_refs
merge_simple refs stmt = merge_refs refs stmt.refs

unfoldable pub merge_compound : List Text → List SimpleStatement → List Text
merge_compound refs [] = refs
merge_compound refs (xstmt ∷ rest) = merge_compound (merge_simple refs xstmt) rest

-- mergeStatement and mergeEnvelope. Reading the body of a statement whose `Body` is nil panics.
unfoldable mutual
  pub merge_statement : Statement → List Text → Result (List Text)
  merge_statement (statement h b) refs = merge_body b refs

  pub merge_body : StatementBody → List Text → Result (List Text)
  merge_body nil refs = panic
  merge_body empty refs = ok refs
  merge_body (simple s) refs = ok (merge_simple refs s)
  merge_body (compound ss) refs = ok (merge_compound refs ss)
  merge_body (envelope stmts) refs = merge_envelope stmts refs
  merge_body archive refs = ok refs

  pub merge_envelope : Statements → List Text → Result (List Text)
  merge_envelope end refs = ok refs
  merge_envelope (next xstmt rest) refs = do
    refs' ← merge_statement xstmt refs
    merge_envelope rest refs'

-- StatementRefs, with the keys of the set as `List` returns them.
unfoldable pub statement_refs : Statement → Result (List Text)
unfolding merge_statement merge_simple merge_compound
statement_refs stmt = merge_statement stmt []

-- StatementSource: the source of an envelope is that of its first statement.
unfoldable mutual
  pub statement_source : Statement → Result Text
  statement_source (statement h b) = body_source h.publisher b

  pub body_source : Text → StatementBody → Result Text
  body_source publisher nil = panic
  body_source publisher (envelope stmts) = first_source publisher stmts
  body_source publisher empty = ok publisher
  body_source publisher (simple s) = ok publisher
  body_source publisher (compound ss) = ok publisher
  body_source publisher archive = ok publisher

  pub first_source : Text → Statements → Result Text
  first_source publisher end = ok publisher
  first_source publisher (next stmt rest) = statement_source stmt
