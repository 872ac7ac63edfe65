-- ===== src/Query/Statement/Refs.antt =====
-- What `statement_refs` collects, against a test that says where a statement holds a reference.
use concat.Base.{
  ◌≡◌, refl, Bool, false, ◌||◌, Text, text_eq, List, [], ◌∷◌, Result, ok, arith, contains,
  contains-insert, insert, Nodup, Nodup-insert, any,
}
use concat.Query.Statement.{
  SimpleStatement, Statement, statement, StatementBody, nil, empty, simple, compound, envelope,
  archive, Statements, end, next, merge_refs, merge_simple, merge_compound, merge_statement,
  merge_body, merge_envelope, statement_refs,
}

-- A simple statement, at any depth outside archives, lists the reference.
unfoldable mutual
  pub refers : Text → Statement → Bool
  refers w (statement h b) = body_refers w b

  pub body_refers : Text → StatementBody → Bool
  body_refers w nil = false
  body_refers w empty = false
  body_refers w (simple s) = contains s.refs w
  body_refers w (compound ss) = any (λ s. contains s.refs w) ss
  body_refers w (envelope stmts) = some_refers w stmts
  body_refers w archive = false

  pub some_refers : Text → Statements → Bool
  some_refers w end = false
  some_refers w (next s rest) = refers w s || some_refers w rest

-- No `Body` is a nil pointer, at any depth.
abbrev mutual
  pub HasBodies : Statement → Type 0
  HasBodies (statement h b) = BodyHasBodies b

  pub BodyHasBodies : StatementBody → Type 0
  BodyHasBodies nil = ⊥
  BodyHasBodies empty = Unit
  BodyHasBodies (simple s) = Unit
  BodyHasBodies (compound ss) = Unit
  BodyHasBodies (envelope stmts) = AllHaveBodies stmts
  BodyHasBodies archive = Unit

  pub AllHaveBodies : Statements → Type 0
  AllHaveBodies end = Unit
  AllHaveBodies (next s rest) = HasBodies s × AllHaveBodies rest

-- A merge that succeeded, and added to a set the references that pass a test.
record Merged (old : List Text) (test : Text → Bool) (r : Result (List Text)) : Type 0 where
  refs : List Text
  done : r ≡ ok refs
  each : (w : Text) → contains refs w ≡ (contains old w || test w)
  nodup : Nodup old → Nodup refs

contains-merge_refs :
    (old ws : List Text) (w : Text)
    → contains (merge_refs old ws) w ≡ (contains old w || contains ws w)
unfolding merge_refs
contains-merge_refs old [] w = ground arith
contains-merge_refs old (v ∷ ws) w =
    ground (arith, contains-merge_refs (insert old v) ws w, contains-insert old v w)

merge_refs-Nodup : (old ws : List Text) → Nodup old → Nodup (merge_refs old ws)
unfolding merge_refs
merge_refs-Nodup old [] u = u
merge_refs-Nodup old (v ∷ ws) u = merge_refs-Nodup (insert old v) ws (Nodup-insert old v u)

contains-merge_compound :
    (old : List Text) (ss : List SimpleStatement) (w : Text)
    → contains (merge_compound old ss) w ≡ (contains old w || any (λ s. contains s.refs w) ss)
unfolding merge_compound merge_simple
contains-merge_compound old [] w = ground arith
contains-merge_compound old (s ∷ ss) w =
    ground (
      arith,
      contains-merge_compound (merge_refs old s.refs) ss w,
      contains-merge_refs old s.refs w,
    )

merge_compound-Nodup :
    (old : List Text) (ss : List SimpleStatement) → Nodup old → Nodup (merge_compound old ss)
unfolding merge_compound merge_simple
merge_compound-Nodup old [] u = u
merge_compound-Nodup old (s ∷ ss) u =
    merge_compound-Nodup (merge_refs old s.refs) ss (merge_refs-Nodup old s.refs u)

unchanged : (old : List Text) → Merged old (λ _. false) (ok old)
unchanged old = record { refs = old; done = refl; each = λ w. ground arith; nodup = λ u. u }

mutual
  unfolding merge_statement refers merge_simple

  merge_statement-Merged :
      (s : Statement) (old : List Text)
      → HasBodies s
      → Merged old (λ w. refers w s) (merge_statement s old)
  merge_statement-Merged (statement h b) old wf = merge_body-Merged b old wf

  merge_body-Merged :
      (b : StatementBody) (old : List Text)
      → BodyHasBodies b
      → Merged old (λ w. body_refers w b) (merge_body b old)
  merge_body-Merged nil old wf = absurd wf
  merge_body-Merged empty old wf = unchanged old
  merge_body-Merged (simple s) old wf = record {
    refs = merge_refs old s.refs;
    done = refl;
    each = contains-merge_refs old s.refs;
    nodup = merge_refs-Nodup old s.refs;
  }
  merge_body-Merged (compound ss) old wf = record {
    refs = merge_compound old ss;
    done = refl;
    each = contains-merge_compound old ss;
    nodup = merge_compound-Nodup old ss;
  }
  merge_body-Merged (envelope stmts) old wf = merge_envelope-Merged stmts old wf
  merge_body-Merged archive old wf = unchanged old

  merge_envelope-Merged :
      (stmts : Statements) (old : List Text)
      → AllHaveBodies stmts
      → Merged old (λ w. some_refers w stmts) (merge_envelope stmts old)
  merge_envelope-Merged end old wf = unchanged old
  merge_envelope-Merged (next s rest) old wf =
      let a = merge_statement-Merged s old (wf.0) in
      let b = merge_envelope-Merged rest a.refs (wf.1) in
      record {
        refs = b.refs;
        done = rw a.done b.done;
        each = λ w. ground (arith, a.each w, b.each w);
        nodup = λ u. b.nodup (a.nodup u);
      }

-- Collecting the references of a statement whose bodies are all set neither fails nor panics; the
-- result holds exactly the references that a simple statement inside lists, each once.
pub statement_refs-refers :
    (s : Statement)
    → HasBodies s
    → (refs : List Text) × (statement_refs s ≡ ok refs)
      × ((w : Text) → contains refs w ≡ refers w s)
      × Nodup refs
unfolding statement_refs
statement_refs-refers s wf =
    let m = merge_statement-Merged s [] wf in (m.refs, m.done, m.each, m.nodup tt)
