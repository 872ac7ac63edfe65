-- ===== src/Node/Gc/Table.antt =====
-- The temporary table of a collection: the keys that the statements use.
use concat.Base.{
  subst, inl, inr, codes, map, none, ◌++◌, sym, ◌∙◌, ℕ, ◌≡◌, refl, ap, Bool, true, false, ◌||◌,
  Text, text_eq, ◌==◌, List, [], ◌∷◌, Result, ok, err, panic, primary_key_taken, ◌>>=◌, >>=-eq-ok,
  arith, contains, any, if◌then◌else◌, All, ltb, length,
}
use concat.Query.{Query}
use concat.Query.Statement.{Statement}
use concat.Node.Database.{StreamValue, statement_value, string_value, failure, other_value}
use concat.Node.Database.Stream.{Driver, query_stream, IsStored, select_all, query_stream-Streams}
use concat.Node.Gc.{
  RefsDb, Objects, key_inserted, insert_keys, failing, merge_keys, merge_full, merge_loop,
  merge_last, merge, add_keys, Context, StatementDb, delivered,
}
use concat.Node.Gc.Keys.{uses, IsComplete, add_keys-Gathered}

-- A table of keys with a primary key.
pub record IsRefsDb {Db : Type 0} (db : RefsDb Db) (member : Db → Text → Bool) : Type 0 where
  pub opened_empty : (tx : Db) → db.opened ≡ ok tx → (k : Text) → member tx k ≡ false
  pub key_added :
      (key : Text) (tx tx' : Db)
      → db.insert_key key tx ≡ ok tx'
      → (k : Text) → member tx' k ≡ (member tx k || k == key)
  pub key_taken :
      (key : Text) (tx : Db) → db.insert_key key tx ≡ err primary_key_taken → member tx key ≡ true
  pub counted :
      (key : Text) (tx : Db) (n : ℕ) → db.count_keys key tx ≡ ok n → ltb 0 n ≡ member tx key

-- Some statement of the stream uses the key.
abbrev pub value_uses : Text → StreamValue → Bool
value_uses w (statement_value s) = uses w s
value_uses w (string_value s) = false
value_uses w (failure e) = false
value_uses w other_value = false

abbrev pub ValueIsComplete : StreamValue → Type 0
ValueIsComplete (statement_value s) = IsComplete s
ValueIsComplete (string_value s) = Unit
ValueIsComplete (failure e) = Unit
ValueIsComplete other_value = Unit

any-value_uses :
    (stmts : List Statement) (k : Text)
    → any (value_uses k) (map statement_value stmts) ≡ any (uses k) stmts
any-value_uses [] k = refl
any-value_uses (s ∷ ss) k = ap (λ b. uses k s || b) (any-value_uses ss k)

All-complete :
    (stmts : List Statement)
    → All IsComplete stmts
    → All ValueIsComplete (map statement_value stmts)
All-complete [] c = tt
All-complete (s ∷ ss) (c, cs) = (c, All-complete ss cs)

-- The database of SQL, with a parser.
abbrev pub sql_db : (Text → Result Query) → Driver → StatementDb
sql_db parse driver = record { parse_query = parse; query_stream = query_stream driver }

module _ {Db Store : Type 0} (db : RefsDb Db) (ds : Objects Store) (member : Db → Text → Bool)
    (tables : IsRefsDb db member) where
  key_inserted-member :
      (key : Text) (r : Result Db) (tx tx' : Db)
      → db.insert_key key tx ≡ r
      → key_inserted db ds r tx ≡ ok tx'
      → (k : Text) → member tx' k ≡ (member tx k || k == key)
  unfolding key_inserted
  key_inserted-member key (ok tx1) tx tx' i e k =
      let is : tx1 ≡ tx' = ground arith in rw (← is) (tables.key_added key tx tx1 i k)
  key_inserted-member key (err primary_key_taken) tx tx' i e k =
      let is : tx ≡ tx' = ground arith in rw (← is) (again k)
    where
      again : (k : Text) → member tx k ≡ (member tx k || k == key)
      again k = elim (text_eq.dec k key) [
        | yes same ↦
            let there = tables.key_taken key tx i in ground (arith, ap (member tx) same, there)
        | no other ↦ ground arith
      ]
  key_inserted-member key (err x) tx tx' i e k = ground arith
  key_inserted-member key panic tx tx' i e k = ground arith

  insert_keys-member :
      (keys : List Text) (tx tx' : Db)
      → insert_keys db ds keys tx ≡ ok tx'
      → (k : Text) → member tx' k ≡ (member tx k || contains keys k)
  unfolding insert_keys
  insert_keys-member [] tx tx' e k = let is : tx ≡ tx' = ground arith in rw (← is) (ground arith)
  insert_keys-member (key ∷ keys) tx tx' e k =
      let (tx1, e1, e2) = >>=-eq-ok (key_inserted db ds (db.insert_key key tx) tx) _ e in
      let first = key_inserted-member key (db.insert_key key tx) tx tx1 refl e1 k in
      let more = insert_keys-member keys tx1 tx' e2 k in ground (arith, first, more)

  merge_keys-member :
      (keys : List Text) (tx tx' : Db)
      → merge_keys db ds keys tx ≡ ok tx'
      → (k : Text) → member tx' k ≡ (member tx k || contains keys k)
  unfolding merge_keys
  merge_keys-member keys tx tx' e =
      let (_, _, e1) = >>=-eq-ok (failing db ds (db.begin tx)) _ e in
      let (tx1, e2, e3) = >>=-eq-ok (insert_keys db ds keys tx) _ e1 in
      let (_, _, e4) = >>=-eq-ok (failing db ds (db.commit tx1)) _ e3 in
      insert_keys-member keys tx tx' (ground (arith, e2, e4))

  merge_full-member :
      (keys : List Text) (tx : Db) (keys' : List Text) (tx' : Db)
      → merge_full db ds keys tx ≡ ok (keys', tx')
      → (k : Text) → (member tx' k || contains keys' k) ≡ (member tx k || contains keys k)
  unfolding merge_full
  merge_full-member keys tx keys' tx' e k = full (ltb (length keys) 1024) e
    where
      full :
          (b : Bool)
          → (if b
              then ok (keys, tx)
              else ◌>>=◌ {B = List Text × Db} (merge_keys db ds keys tx) (λ tx1. ok ([], tx1)))
            ≡ ok (keys', tx')
          → (member tx' k || contains keys' k) ≡ (member tx k || contains keys k)
      full true i = ground (arith, ap (λ t. member t k), i)
      full false i =
          let (tx1, e1, e2) = >>=-eq-ok (merge_keys db ds keys tx) _ i in
          let more = merge_keys-member keys tx tx1 e1 k in
          ground (arith, e2, more, ap (λ t. member t k))

  merge_loop-member :
      (values : List StreamValue) (keys : List Text) (tx : Db) (keys' : List Text) (tx' : Db)
      → merge_loop db ds values keys tx ≡ ok (keys', tx')
      → All ValueIsComplete values
      → (k : Text)
      → (member tx' k || contains keys' k)
        ≡ ((member tx k || contains keys k) || any (value_uses k) values)
  unfolding merge_loop
  merge_loop-member [] keys tx keys' tx' e c k = ground (arith, ap (λ t. member t k), e)
  merge_loop-member (statement_value s ∷ rest) keys tx keys' tx' e (c, cs) k =
      let g = add_keys-Gathered s keys c in
      let ((keys1, x), e1, e2) = >>=-eq-ok (add_keys s keys) _ e in
      let ((keys2, tx1), e3, e4) = >>=-eq-ok (merge_full db ds keys1 tx) _ e2 in
      let is : keys1 ≡ g.keys = ground (arith, e1, g.done) in
      let full = merge_full-member keys1 tx keys2 tx1 e3 k in
      let more = merge_loop-member rest keys2 tx1 keys' tx' e4 cs k in
      let each : contains keys1 k ≡ (contains keys k || uses k s) = rw is (g.each k) in
      ground (arith, full, more, each)
  merge_loop-member (failure x ∷ rest) keys tx keys' tx' e c k = ground arith
  merge_loop-member (string_value s ∷ rest) keys tx keys' tx' e c k = ground arith
  merge_loop-member (other_value ∷ rest) keys tx keys' tx' e c k = ground arith

  merge_last-member :
      (keys : List Text) (tx tx' : Db)
      → merge_last db ds keys tx ≡ ok tx'
      → (k : Text) → member tx' k ≡ (member tx k || contains keys k)
  unfolding merge_last
  merge_last-member [] tx tx' e k = ground (arith, ap (λ t. member t k), e)
  merge_last-member (key ∷ keys) tx tx' e k = merge_keys-member (key ∷ keys) tx tx' e k

  -- A failure among the values ends the loop with an error.
  merge_loop-failure :
      (values : List StreamValue) (e : Text) (keys : List Text) (tx : Db) (r : List Text × Db)
      → merge_loop db ds (values ++ (failure e ∷ [])) keys tx ≡ ok r
      → ⊥
  unfolding merge_loop
  merge_loop-failure [] e keys tx r h = ground arith
  merge_loop-failure (statement_value s ∷ rest) e keys tx r h =
      let ((keys1, x), _, h1) = >>=-eq-ok (add_keys s keys) _ h in
      let ((keys2, tx1), _, h2) = >>=-eq-ok (merge_full db ds keys1 tx) _ h1 in
      merge_loop-failure rest e keys2 tx1 r h2
  merge_loop-failure (failure x ∷ rest) e keys tx r h = ground arith
  merge_loop-failure (string_value s ∷ rest) e keys tx r h = ground arith
  merge_loop-failure (other_value ∷ rest) e keys tx r h = ground arith

  -- The table of a new collection holds the keys that the statements of the database use, and no
  -- others, where the context is not done while they are read.
  pub merged-member :
      (ctx : Context) (parse : Text → Result Query) (driver : Driver) (stmts : List Statement)
      (tx tx' : Db)
      → parse (codes "SELECT * FROM *") ≡ ok select_all
      → IsStored driver stmts
      → ctx.statements_left ≡ none
      → db.opened ≡ ok tx
      → merge db ds ctx (sql_db parse driver) tx ≡ ok tx'
      → All IsComplete stmts
      → (k : Text) → member tx' k ≡ any (uses k) stmts
  unfolding merge
  merged-member ctx parse driver stmts tx tx' parsed is live new e c k =
      let (q, e1, e2) = >>=-eq-ok (parse (codes "SELECT * FROM *")) _ e in
      let (ch, e3, e4) = >>=-eq-ok (query_stream driver q) _ e2 in
      let ((keys, tx1), e5, e6) =
        >>=-eq-ok (merge_loop db ds (delivered ctx.statements_left ch) [] tx) _ e4 in
      let all_read : merge_loop db ds ch [] tx ≡ ok (keys, tx1) =
        subst (λ n. merge_loop db ds (delivered n ch) [] tx ≡ ok (keys, tx1)) live e5 in
      let asked : q ≡ select_all = ground (arith, parsed, e1) in
      elim (query_stream-Streams driver stmts ch is (ap (query_stream driver) (sym asked) ∙ e3)) [
        | inl whole ↦
            let run : merge_loop db ds (map statement_value stmts) [] tx ≡ ok (keys, tx1) =
              subst (λ l. merge_loop db ds l [] tx ≡ ok (keys, tx1)) whole all_read in
            let loop =
              merge_loop-member (map statement_value stmts) [] tx keys tx1 run
                (All-complete stmts c) k in
            let last = merge_last-member keys tx1 tx' e6 k in
            let none_yet = tables.opened_empty tx new k in
            let same = any-value_uses stmts k in ground (arith, loop, last, none_yet, same)
        | inr (before, x, cut) ↦ absurd (
            merge_loop-failure before x [] tx (keys, tx1)
              (subst (λ l. merge_loop db ds l [] tx ≡ ok (keys, tx1)) cut all_read))
      ]
