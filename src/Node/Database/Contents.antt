-- ===== src/Node/Database/Contents.antt =====
-- The operations of the statement database on its content, the statement of each identifier.
use concat.Base.{
  ℕ, ◌+◌, Text, text_eq, ◌≡◌, ◌≢◌, refl, sym, subst, ◌⊎◌, inl, inr, ◌∙◌, arith, Bool, true, false,
  Option, none, some, List, [], ◌∷◌, Result, ok, err, panic, primary_key_taken, ◌>>=◌, >>=-eq-ok,
  if◌then◌else◌,
}
use concat.Query.Statement.{Statement, header}
use concat.Node.Database.{
  Sql, Coding, transaction, committed, insert_row, insert_statement, insert_statements, within,
  put_batch, insert_rest, insert_unless_there, merge_statement, merge_statements, merge_batch,
}
use concat.Node.Database.Tables.{Tables, update, IsSql, Content, Rows, Holds}
use concat.Node.Database.Refined.{insert_row-Holds}

-- A batch merged into a content: the number of statements that it did not have, and the content
-- with the first statement of each identifier.
unfoldable pub merge_spec : List Statement → ℕ → Content → ℕ × Content
merge_spec [] count m = (count, m)
merge_spec (s ∷ rest) count m = elim (m (header s).id) [
  | some t ↦ merge_spec rest count m
  | none ↦ merge_spec rest (count + 1) (update m (header s).id (some s))
]

-- A batch put into a content, which has none of its identifiers.
unfoldable pub put_spec : List Statement → Content → Option Content
put_spec [] m = some m
put_spec (s ∷ rest) m = elim (m (header s).id) [
  | some t ↦ none
  | none ↦ put_spec rest (update m (header s).id (some s))
]

-- What a transaction ends in: its value and the database of the end, or the database of the start.
abbrev pub Ends : {Db A : Type 0} → (A → Db → Type 0) → Db → Result A × Db → Type 0
Ends Q db (ok a, db') = Q a db'
Ends Q db (err e, db') = db' ≡ db
Ends Q db (panic, db') = db' ≡ db

pub transaction-Ends :
    {Db A : Type 0} (Q : A → Db → Type 0) (r : Result (A × Db)) (db : Db)
    → ((a : A) (db' : Db) → r ≡ ok (a, db') → Q a db')
    → Ends Q db (transaction r db)
transaction-Ends Q (ok (a, db')) db q = q a db' refl
transaction-Ends Q (err e) db q = refl
transaction-Ends Q panic db q = refl

module _ {Db : Type 0} (sql : Sql Db) (coding : Coding) (view : Db → Tables)
    (laws : IsSql sql view) where
  pub within-eq-ok :
      {A : Type 0} (work : Db → Result (A × Db)) (db : Db) (a : A) (db' : Db)
      → within sql coding work db ≡ ok (a, db')
      → work db ≡ ok (a, db')
  unfolding within
  within-eq-ok work db a db' e =
      let (u, _, e1) = >>=-eq-ok (committed (sql.begin db) tt) _ e in
      let ((a1, db1), e2, e3) = >>=-eq-ok (work db) _ e1 in
      let (v, _, e4) = >>=-eq-ok (committed (sql.commit db1) tt) _ e3 in e2 ∙ e4

  abbrev Step : Statement → Content → Bool → Db → Db → Type 0
  Step s m true tx tx' =
      (m (header s).id ≡ none) × Holds coding (view tx') (update m (header s).id (some s))
  Step s m false tx tx' = ((t : Statement) × (m (header s).id ≡ some t)) × (tx' ≡ tx)

  taken-cases :
      (r : Result Db) (tx : Db) (new : Bool) (tx1 : Db)
      → insert_unless_there sql coding r tx ≡ ok (new, tx1)
      → ((r ≡ ok tx1) × (new ≡ true)) ⊎ ((r ≡ err primary_key_taken) × (new ≡ false) × (tx1 ≡ tx))
  unfolding insert_unless_there
  taken-cases (ok tx') tx new tx1 e = ground arith
  taken-cases (err primary_key_taken) tx new tx1 e = ground arith
  taken-cases (err x) tx new tx1 e = ground arith
  taken-cases panic tx new tx1 e = ground arith

  present :
      (t : Tables) (id : Text) (o : Option Statement)
      → Rows coding t id o
      → t.data_of id ≢ none
      → (s : Statement) × (o ≡ some s)
  present t id none (d, _, _) n = absurd (n d)
  present t id (some s) rows n = (s, refl)

  -- A round of a merge adds the statement, or finds its identifier taken and changes nothing.
  merge_statement-Step :
      (s : Statement) (m : Content) (tx : Db) (new : Bool) (tx' : Db)
      → merge_statement sql coding s tx ≡ ok (new, tx')
      → Holds coding (view tx) m
      → Step s m new tx tx'
  unfolding merge_statement insert_row
  merge_statement-Step s m tx new tx' e h =
      let (bytes, e1, e2) = >>=-eq-ok (coding.marshal s) _ e in
      let ((inserted, tx1), e3, e4) =
        >>=-eq-ok (insert_unless_there sql coding (sql.insert_stmt_data (header s).id bytes tx) tx)
          _ e2 in
      next bytes inserted tx1 e1 (taken-cases _ tx inserted tx1 e3) e4
    where
      insert_row-eq-ok :
          (bytes : Text) (tx1 : Db)
          → sql.insert_stmt_data (header s).id bytes tx ≡ ok tx1
          → insert_rest sql coding s tx1 ≡ ok tx'
          → insert_row sql coding s bytes tx ≡ ok tx'
      insert_row-eq-ok bytes tx1 ran rest = rw ran rest

      next :
          (bytes : Text) (inserted : Bool) (tx1 : Db)
          → coding.marshal s ≡ ok bytes
          → ((sql.insert_stmt_data (header s).id bytes tx ≡ ok tx1) × (inserted ≡ true))
            ⊎ ((sql.insert_stmt_data (header s).id bytes tx ≡ err primary_key_taken)
                × (inserted ≡ false)
                × (tx1 ≡ tx))
          → (if inserted
              then ◌>>=◌ {B = Bool × Db} (insert_rest sql coding s tx1) (λ tx2. ok (true, tx2))
              else ok (false, tx1))
            ≡ ok (new, tx')
          → Step s m new tx tx'
      next bytes true tx1 me (inl (ran, _)) e4 =
          let (tx2, e5, e6) = >>=-eq-ok (insert_rest sql coding s tx1) _ e4 in
          let row : insert_row sql coding s bytes tx ≡ ok tx' =
            insert_row-eq-ok bytes tx1 ran (ground (arith, e5, e6)) in
          let is : new ≡ true = ground (arith, e6) in
          rw is (insert_row-Holds sql coding view laws s bytes m tx tx' me row h)
      next bytes true tx1 me (inr (_, f, _)) e4 = ground arith
      next bytes false tx1 me (inl (_, f)) e4 = ground arith
      next bytes false tx1 me (inr (taken, _, same)) e4 =
          let is : new ≡ false = ground arith in
          rw is (
            present (view tx) (header s).id (m (header s).id) (h (header s).id)
                (laws.data_taken (header s).id bytes tx taken),
            ground arith,
          )

  merge_statements-merge_spec :
      (stmts : List Statement) (count : ℕ) (m : Content) (tx : Db) (n : ℕ) (tx' : Db)
      → merge_statements sql coding stmts count tx ≡ ok (n, tx')
      → Holds coding (view tx) m
      → (n ≡ (merge_spec stmts count m).0) × Holds coding (view tx') (merge_spec stmts count m).1
  unfolding merge_statements merge_spec
  merge_statements-merge_spec [] count m tx n tx' e h =
      let is : tx ≡ tx' = ground arith in (ground arith, subst (λ t. Holds coding (view t) m) is h)
  merge_statements-merge_spec (s ∷ rest) count m tx n tx' e h =
      let ((new, tx1), e1, e2) = >>=-eq-ok (merge_statement sql coding s tx) _ e in
      next new tx1 (merge_statement-Step s m tx new tx1 e1 h)
        (λ c m'. merge_statements-merge_spec rest c m' tx1 n tx') e2
    where
      next :
          (new : Bool) (tx1 : Db)
          → Step s m new tx tx1
          → ((c : ℕ) (m' : Content)
              → merge_statements sql coding rest c tx1 ≡ ok (n, tx')
              → Holds coding (view tx1) m'
              → (n ≡ (merge_spec rest c m').0) × Holds coding (view tx') (merge_spec rest c m').1)
          → merge_statements sql coding rest (if new then count + 1 else count) tx1 ≡ ok (n, tx')
          → (n ≡ (merge_spec (s ∷ rest) count m).0)
            × Holds coding (view tx') (merge_spec (s ∷ rest) count m).1
      next true tx1 (none_there, h1) more e2 =
          rw (none_there, merge_spec) (more (count + 1) (update m (header s).id (some s)) e2 h1)
      next false tx1 ((t, there), same) more e2 =
          rw (there, merge_spec)
            (more count m e2 (subst (λ x. Holds coding (view x) m) (sym same) h))

  abbrev pub Merged : List Statement → Content → ℕ → Db → Type 0
  Merged stmts m n db' =
      (n ≡ (merge_spec stmts 0 m).0) × Holds coding (view db') (merge_spec stmts 0 m).1

  -- A merge of a batch implements the merge of contents: if the tables hold a content and the merge
  -- succeeds, they then hold that content with the first statement of the batch for each identifier
  -- that had none, with its data, envelope and references, and the result is the number of those
  -- identifiers. If the merge fails at any statement of SQL, or in marshalling, or panics, the
  -- database is the one from before.
  pub merge_batch-Merged :
      (stmts : List Statement) (m : Content) (db : Db)
      → Holds coding (view db) m
      → Ends (Merged stmts m) db (merge_batch sql coding stmts db)
  unfolding merge_batch
  merge_batch-Merged stmts m db h = transaction-Ends (Merged stmts m) _ db (λ n db' e.
      merge_statements-merge_spec stmts 0 m db n db'
        (within-eq-ok (merge_statements sql coding stmts 0) db n db' e) h)

  put_statements-put_spec :
      (stmts : List Statement) (m : Content) (tx tx' : Db)
      → insert_statements sql coding stmts tx ≡ ok tx'
      → Holds coding (view tx) m
      → (m' : Content) × (put_spec stmts m ≡ some m') × Holds coding (view tx') m'
  unfolding insert_statements insert_statement put_spec
  put_statements-put_spec [] m tx tx' e h =
      let is : tx ≡ tx' = ground arith in (m, refl, subst (λ t. Holds coding (view t) m) is h)
  put_statements-put_spec (s ∷ rest) m tx tx' e h =
      let (tx1, e1, e2) = >>=-eq-ok (insert_statement sql coding s tx) _ e in
      let (bytes, me, row) = >>=-eq-ok (coding.marshal s) _ e1 in
      let (none_there, h1) = insert_row-Holds sql coding view laws s bytes m tx tx1 me row h in
      rw (none_there, put_spec)
        (put_statements-put_spec rest (update m (header s).id (some s)) tx1 tx' e2 h1)

  abbrev pub PutDone : List Statement → Content → Unit {0} → Db → Type 0
  PutDone stmts m u db' = (m' : Content) × (put_spec stmts m ≡ some m') × Holds coding (view db') m'

  -- A batch is put as a whole or not at all: if the tables hold a content and the call succeeds, then
  -- the identifiers of the batch are distinct and new, and the tables hold the content with the
  -- statements of the batch. Otherwise the database is the one from before.
  pub put_batch-PutDone :
      (stmts : List Statement) (m : Content) (db : Db)
      → Holds coding (view db) m
      → Ends (PutDone stmts m) db (put_batch sql coding stmts db)
  unfolding put_batch
  put_batch-PutDone stmts m db h = transaction-Ends (PutDone stmts m) _ db (λ u db' e.
      let (tx', e1, e2) = >>=-eq-ok (insert_statements sql coding stmts db) _ (
        within-eq-ok (λ tx. insert_statements sql coding stmts tx >>= λ t. ok (tt, t)) db u db'
          e) in
      put_statements-put_spec stmts m db db' (ground (arith, e1, e2)) h)
