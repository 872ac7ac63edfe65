-- ===== src/Node/Gc/Keys.antt =====
-- The keys that the collection gathers, against a test that says which keys a statement refers to.
use concat.Base.{
  ◌≡◌, refl, Bool, false, ◌||◌, Text, text_eq, ◌==◌, Option, none, List, [], ◌∷◌, Error, Result, ok,
  arith, contains, contains-insert, insert, any,
}
use concat.Query.Statement.{
  SimpleStatement, Statement, statement, StatementBody, nil, empty, simple, compound, envelope,
  archive, Statements, end, next,
}
use concat.Node.Gc.{
  insert_all, add_simple_keys, add_compound_keys, add_keys, add_body_keys, add_envelope_keys,
}

-- A simple statement has the key for its object or among its dependencies.
abbrev pub has_key : Text → SimpleStatement → Bool
has_key w s = w == s.object || contains s.deps w

-- A simple statement at any depth has the key.
unfoldable mutual
  pub uses : Text → Statement → Bool
  uses w (statement h b) = body_uses w b

  pub body_uses : Text → StatementBody → Bool
  body_uses w nil = false
  body_uses w empty = false
  body_uses w (simple s) = has_key w s
  body_uses w (compound ss) = any (has_key w) ss
  body_uses w (envelope stmts) = some_uses w stmts
  body_uses w archive = false

  pub some_uses : Text → Statements → Bool
  some_uses w end = false
  some_uses w (next s rest) = uses w s || some_uses w rest

-- Every body, at any depth, is simple, compound or an envelope.
abbrev mutual
  pub IsComplete : Statement → Type 0
  IsComplete (statement h b) = BodyIsComplete b

  pub BodyIsComplete : StatementBody → Type 0
  BodyIsComplete nil = ⊥
  BodyIsComplete empty = ⊥
  BodyIsComplete (simple s) = Unit
  BodyIsComplete (compound ss) = Unit
  BodyIsComplete (envelope stmts) = AllComplete stmts
  BodyIsComplete archive = ⊥

  pub AllComplete : Statements → Type 0
  AllComplete end = Unit
  AllComplete (next s rest) = IsComplete s × AllComplete rest

contains-insert_all :
    (keys more : List Text) (w : Text)
    → contains (insert_all keys more) w ≡ (contains keys w || contains more w)
unfolding insert_all
contains-insert_all keys [] w = ground arith
contains-insert_all keys (v ∷ more) w =
    ground (arith, contains-insert_all (insert keys v) more w, contains-insert keys v w)

contains-add_simple_keys :
    (s : SimpleStatement) (keys : List Text) (w : Text)
    → contains (add_simple_keys s keys) w ≡ (contains keys w || has_key w s)
unfolding add_simple_keys
contains-add_simple_keys s keys w =
    ground
      (arith, contains-insert_all (insert keys s.object) s.deps w, contains-insert keys s.object w)

contains-add_compound_keys :
    (ss : List SimpleStatement) (keys : List Text) (w : Text)
    → contains (add_compound_keys ss keys) w ≡ (contains keys w || any (has_key w) ss)
unfolding add_compound_keys
contains-add_compound_keys [] keys w = ground arith
contains-add_compound_keys (s ∷ ss) keys w = ground (
  arith,
  contains-add_compound_keys ss (add_simple_keys s keys) w,
  contains-add_simple_keys s keys w,
)

-- Keys that were gathered without an error: the old ones, and those that pass a test.
pub record Gathered (old : List Text) (test : Text → Bool) (r : Result (List Text × Option Error))
    : Type 0 where
  pub keys : List Text
  pub done : r ≡ ok (keys, none)
  pub each : (w : Text) → contains keys w ≡ (contains old w || test w)

mutual
  unfolding add_keys uses

  pub add_keys-Gathered :
      (s : Statement) (old : List Text)
      → IsComplete s
      → Gathered old (λ w. uses w s) (add_keys s old)
  add_keys-Gathered (statement h b) old c = add_body_keys-Gathered b old c

  add_body_keys-Gathered :
      (b : StatementBody) (old : List Text)
      → BodyIsComplete b
      → Gathered old (λ w. body_uses w b) (add_body_keys b old)
  add_body_keys-Gathered nil old c = absurd c
  add_body_keys-Gathered empty old c = absurd c
  add_body_keys-Gathered (simple s) old c = record {
    keys = add_simple_keys s old;
    done = refl;
    each = contains-add_simple_keys s old;
  }
  add_body_keys-Gathered (compound ss) old c = record {
    keys = add_compound_keys ss old;
    done = refl;
    each = contains-add_compound_keys ss old;
  }
  add_body_keys-Gathered (envelope stmts) old c = add_envelope_keys-Gathered stmts old c
  add_body_keys-Gathered archive old c = absurd c

  add_envelope_keys-Gathered :
      (stmts : Statements) (old : List Text)
      → AllComplete stmts
      → Gathered old (λ w. some_uses w stmts) (add_envelope_keys stmts (ok (old, none)))
  add_envelope_keys-Gathered end old c = record {
    keys = old;
    done = refl;
    each = λ w. ground arith;
  }
  add_envelope_keys-Gathered (next s rest) old (c, cs) =
      let first = add_keys-Gathered s old c in
      let more = add_envelope_keys-Gathered rest first.keys cs in
      record {
        keys = more.keys;
        done = rw first.done more.done;
        each = λ w. ground (arith, more.each w, first.each w);
      }
