-- ===== src/Query/Statement/Source.antt =====
-- mc/query/stmt.go: the source of a statement, which is that of the first statement of an envelope.
use concat.Base.{◌≡◌, refl, Text, ok}
use concat.Query.Statement.{
  Statement, statement, StatementBody, nil, empty, simple, compound, envelope, archive, Statements,
  end, next, statement_source, body_source, first_source,
}
use concat.Query.Statement.Refs.{HasBodies, BodyHasBodies, AllHaveBodies}

-- The source of a statement, where the bodies on the way to it are set.
mutual
  pub source_of : Statement → Text
  source_of (statement h b) = source_of_body h.publisher b

  pub source_of_body : Text → StatementBody → Text
  source_of_body publisher (envelope stmts) = source_of_first publisher stmts
  source_of_body publisher _ = publisher

  pub source_of_first : Text → Statements → Text
  source_of_first publisher end = publisher
  source_of_first publisher (next s rest) = source_of s

mutual
  unfolding source_of statement_source

  pub statement_source-eq : (s : Statement) → HasBodies s → statement_source s ≡ ok (source_of s)
  statement_source-eq (statement h b) wf = body_source-eq h.publisher b wf

  body_source-eq :
      (publisher : Text) (b : StatementBody)
      → BodyHasBodies b
      → body_source publisher b ≡ ok (source_of_body publisher b)
  body_source-eq publisher nil wf = absurd wf
  body_source-eq publisher empty wf = refl
  body_source-eq publisher (simple s) wf = refl
  body_source-eq publisher (compound ss) wf = refl
  body_source-eq publisher (envelope stmts) wf = first_source-eq publisher stmts wf
  body_source-eq publisher archive wf = refl

  first_source-eq :
      (publisher : Text) (stmts : Statements)
      → AllHaveBodies stmts
      → first_source publisher stmts ≡ ok (source_of_first publisher stmts)
  first_source-eq publisher end wf = refl
  first_source-eq publisher (next s rest) wf = statement_source-eq s wf.0
