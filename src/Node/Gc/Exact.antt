-- ===== src/Node/Gc/Exact.antt =====
-- What a collection leaves in the datastore.
use concat.Base.{
  codes, ℕ, ◌+◌, ◌≡◌, refl, ◌∙◌, sym, ap, subst, Bool, true, false, not, ◌||◌, ◌&&◌, Text, text_eq,
  ◌==◌, Option, none, some, List, [], ◌∷◌, Error, Result, ok, err, panic, ◌>>=◌, >>=-eq-ok, arith,
  contains, any, All, ltb, Bool-cases, inl, inr,
}
use concat.Query.{Query}
use concat.Query.Statement.{Statement}
use concat.Node.Database.Stream.{Driver, IsStored, select_all}
use concat.Node.Status.{offline}
use concat.Node.Gc.{
  Context, delivered, RefsDb, Objects, Collected, merge, valid_key, stop, delete_loop, compacted,
  gc, gc_merged, do_gc,
}
use concat.Node.Gc.Keys.{uses, IsComplete}
use concat.Node.Gc.Table.{IsRefsDb, sql_db, merged-member}

-- A datastore that lists the keys it has, and that deletes the key it is asked to.
pub record IsObjects {Store : Type 0} (ds : Objects Store) (has : Store → Text → Bool)
    : Type 0 where
  pub listed :
      (store : Store) (keys : List Text)
      → ds.iter_keys store ≡ ok keys
      → (k : Text) → contains keys k ≡ has store k
  pub deleted :
      (key : Text) (store store' : Store)
      → ds.delete key store ≡ ok store'
      → (k : Text) → has store' k ≡ (has store k && not (k == key))
  pub kept : (store : Store) (k : Text) → has (ds.compact store) k ≡ has store k

module _ {Db Store : Type 0} (db : RefsDb Db) (ds : Objects Store) (member : Db → Text → Bool)
    (has : Store → Text → Bool) (tables : IsRefsDb db member) (objects : IsObjects ds has) where
  -- Keys of the table stay, and a run without a failure leaves no other of its keys.
  abbrev Left : Db → List Text → Store → Collected Store → Text → Type 0
  Left refs keys store c k =
      (member refs (ds.b58_string k) ≡ true → has c.store k ≡ has store k)
      × (c.failed ≡ none
          → has c.store k
            ≡ (has store k && (member refs (ds.b58_string k) || not (contains keys k))))

  same_store :
      (count : ℕ) (store : Store) (f : Option Error) (c : Collected Store)
      → ok (record { count = count; store = store; failed = f }) ≡ ok c
      → (store ≡ c.store) × (f ≡ c.failed)
  same_store count store f c e = (ground arith, ground arith)

  stopped-Left :
      (refs : Db) (keys : List Text) (count : ℕ) (store : Store) (x : Error) (c : Collected Store)
      → stop db ds count store x ≡ ok c
      → (k : Text) → Left refs keys store c k
  stopped-Left refs keys count store x c e k =
      let (same, failing_with) = same_store count store (some x) c e in
      (λ m. ap (λ t. has t k) (sym same), λ f. ground (arith, failing_with, f))

  valid_key-member :
      (key : Text) (refs : Db) (b : Bool)
      → valid_key db ds key refs ≡ ok b
      → b ≡ member refs (ds.b58_string key)
  unfolding valid_key
  valid_key-member key refs b e =
      let (n, e1, e2) = >>=-eq-ok (db.count_keys (ds.b58_string key) refs) _ e in
      let is : ltb 0 n ≡ b = ground arith in sym is ∙ tables.counted (ds.b58_string key) refs n e1

  delete_loop-Left :
      (refs : Db) (keys : List Text) (count : ℕ) (store : Store) (c : Collected Store)
      → delete_loop db ds refs keys count store ≡ ok c
      → (k : Text) → Left refs keys store c k
  unfolding delete_loop
  delete_loop-Left refs [] count store c e k =
      let (same, _) = same_store count store none c e in
      (λ m. ap (λ t. has t k) (sym same), λ f. ground (arith, ap (λ t. has t k) same))
  delete_loop-Left refs (key ∷ keys) count store c e k =
      checked (valid_key db ds key refs) refl (λ n s. delete_loop-Left refs keys n s c) e
    where
      Rest : Type 0
      Rest =
          (n : ℕ) (s : Store)
          → delete_loop db ds refs keys n s ≡ ok c
          → (j : Text) → Left refs keys s c j

      removed :
          (r : Result Store)
          → ds.delete key store ≡ r
          → member refs (ds.b58_string key) ≡ false
          → Rest
          → (elim r [
            | panic ↦ panic
            | err x ↦ stop db ds count store x
            | ok store' ↦ delete_loop db ds refs keys (count + 1) store'
          ])
            ≡ ok c
          → Left refs (key ∷ keys) store c k
      removed panic d m more i = ground arith
      removed (err x) d m more i = stopped-Left refs (key ∷ keys) count store x c i k
      removed (ok store') d m more i =
          let (safe, exact) = more (count + 1) store' i k in
          let gone = objects.deleted key store store' d k in
          elim (text_eq.dec k key) [
            | yes same ↦
                let there : member refs (ds.b58_string k) ≡ false = rw same m in
                (λ t. ground (arith, there, t), λ f. ground (arith, exact f, gone, there))
            | no other ↦ (λ t. ground (arith, safe t, gone), λ f. ground (arith, exact f, gone))
          ]

      checked :
          (r : Result Bool)
          → valid_key db ds key refs ≡ r
          → Rest
          → (elim r [
            | panic ↦ panic
            | err x ↦ stop db ds count store x
            | ok true ↦ delete_loop db ds refs keys count store
            | ok false ↦ elim (ds.delete key store) [
              | panic ↦ panic
              | err x ↦ stop db ds count store x
              | ok store' ↦ delete_loop db ds refs keys (count + 1) store'
            ]
          ])
            ≡ ok c
          → Left refs (key ∷ keys) store c k
      checked panic v more i = ground arith
      checked (err x) v more i = stopped-Left refs (key ∷ keys) count store x c i k
      checked (ok true) v more i =
          let (safe, exact) = more count store i k in
          let there : member refs (ds.b58_string key) ≡ true =
            sym (valid_key-member key refs true v) in
          (
            safe,
            λ f. elim (text_eq.dec k key) [
              | yes same ↦
                  ground (arith, exact f, there, ap (λ t. member refs (ds.b58_string t)) same)
              | no other ↦ ground (arith, exact f)
            ],
          )
      checked (ok false) v more i =
          removed (ds.delete key store) refl (sym (valid_key-member key refs false v)) more i

  compacted-same :
      (count : ℕ) (store : Store) (f : Option Error) (k : Text)
      → (has (compacted db ds (record { count = count; store = store; failed = f })).store k
          ≡ has store k)
        × ((compacted db ds (record { count = count; store = store; failed = f })).failed ≡ f)
  unfolding compacted
  compacted-same count store (some x) k = (refl, refl)
  compacted-same count store none k = elim (Bool-cases (ltb 0 count)) [
    | inl some_deleted ↦ rw some_deleted (objects.kept store k, refl)
    | inr none_deleted ↦ rw none_deleted (refl, refl)
  ]

  -- What a collection leaves: the keys that the statements use, and where it does not fail, and has
  -- seen every key, no others.
  abbrev Collects : Context → List Statement → Store → Collected Store → Text → Type 0
  Collects ctx stmts store c k =
      (any (uses (ds.b58_string k)) stmts ≡ true → has c.store k ≡ has store k)
      × (ctx.keys_left ≡ none
          → c.failed ≡ none
          → has c.store k ≡ (has store k && any (uses (ds.b58_string k)) stmts))

  do_gc-Collects :
      (ctx : Context) (parse : Text → Result Query) (driver : Driver) (stmts : List Statement)
      (store : Store) (c : Collected Store)
      → parse (codes "SELECT * FROM *") ≡ ok select_all
      → IsStored driver stmts
      → All IsComplete stmts
      → ctx.statements_left ≡ none
      → do_gc db ds offline ctx (sql_db parse driver) store ≡ ok c
      → (k : Text) → Collects ctx stmts store c k
  unfolding do_gc gc_merged gc
  do_gc-Collects ctx parse driver stmts store c parsed is complete live e k =
      merged (db.opened >>= merge db ds ctx (sql_db parse driver)) refl e
    where
      stopped : (x : Error) → stop db ds 0 store x ≡ ok c → Collects ctx stmts store c k
      stopped x i =
          let (same, f) = same_store 0 store (some x) c i in
          (λ u. ap (λ t. has t k) (sym same), λ all fine. ground (arith, f, fine))

      left :
          (refs : Db) (keys : List Text)
          → (contains keys k ≡ has store k)
          → (member refs (ds.b58_string k) ≡ any (uses (ds.b58_string k)) stmts)
          → delete_loop db ds refs (delivered ctx.keys_left keys) 0 store
              >>= (λ d. ok (compacted db ds d))
            ≡ ok c
          → Collects ctx stmts store c k
      left refs keys listing members i =
          let (d, e1, e2) =
            >>=-eq-ok (delete_loop db ds refs (delivered ctx.keys_left keys) 0 store) _ i in
          let is : compacted db ds d ≡ c = ground arith in
          let (safe, exact) = delete_loop-Left refs (delivered ctx.keys_left keys) 0 store d e1 k in
          let (kept, f) = compacted-same d.count d.store d.failed k in
          let kept' : has c.store k ≡ has d.store k =
            subst (λ x. has x.store k ≡ has d.store k) is kept in
          let f' : c.failed ≡ d.failed = subst (λ x. x.failed ≡ d.failed) is f in
          (
            λ used. kept' ∙ safe (members ∙ used),
            λ all fine.
                let seen : contains (delivered ctx.keys_left keys) k ≡ has store k =
                  ap (λ n. contains (delivered n keys) k) all ∙ listing in
                ground (arith, kept', exact (sym f' ∙ fine), members, seen),
          )

      collected :
          (refs : Db) (r : Result (List Text))
          → ds.iter_keys store ≡ r
          → (member refs (ds.b58_string k) ≡ any (uses (ds.b58_string k)) stmts)
          → (elim r [
            | panic ↦ panic
            | err x ↦ stop db ds 0 store x
            | ok keys ↦
                (delete_loop db ds refs (delivered ctx.keys_left keys) 0 store >>= λ d.
                ok (compacted db ds d))
          ])
            ≡ ok c
          → Collects ctx stmts store c k
      collected refs panic l members i = ground arith
      collected refs (err x) l members i = stopped x i
      collected refs (ok keys) l members i =
          left refs keys (objects.listed store keys l k) members i

      merged :
          (r : Result Db)
          → (db.opened >>= merge db ds ctx (sql_db parse driver)) ≡ r
          → gc_merged db ds ctx r store ≡ ok c
          → Collects ctx stmts store c k
      merged panic m i = ground arith
      merged (err x) m i = stopped x i
      merged (ok refs) m i =
          let (tx, new, ran) = >>=-eq-ok db.opened _ m in
          collected refs (ds.iter_keys store) refl
            (merged-member db ds member tables ctx parse driver stmts tx refs parsed is live new ran
              complete (ds.b58_string k))
            i

  -- A collection of an offline node never deletes an object that a statement of the database uses,
  -- whatever it ends in, where its context is not done while the statements are read. The statements
  -- are the rows of the table Statement at the time of the query, which `SELECT * FROM *` is compiled
  -- to, and they are complete: every body is simple, compound or an envelope of complete statements.
  pub do_gc-keeps :
      (ctx : Context) (parse : Text → Result Query) (driver : Driver) (stmts : List Statement)
      (store : Store) (c : Collected Store)
      → parse (codes "SELECT * FROM *") ≡ ok select_all
      → IsStored driver stmts
      → All IsComplete stmts
      → ctx.statements_left ≡ none
      → do_gc db ds offline ctx (sql_db parse driver) store ≡ ok c
      → (k : Text) → any (uses (ds.b58_string k)) stmts ≡ true
      → has c.store k ≡ has store k
  do_gc-keeps ctx parse driver stmts store c parsed is complete live e k =
      (do_gc-Collects ctx parse driver stmts store c parsed is complete live e k).0

  -- A collection of an offline node that returns without an error leaves exactly the objects that
  -- were stored and that a statement of the database uses, where its context is not done while the
  -- statements and the keys of the datastore are read. The statements are the rows of the table
  -- Statement at the time of the query, which `SELECT * FROM *` is compiled to, and they are complete.
  pub do_gc-exact :
      (ctx : Context) (parse : Text → Result Query) (driver : Driver) (stmts : List Statement)
      (store : Store) (c : Collected Store)
      → parse (codes "SELECT * FROM *") ≡ ok select_all
      → IsStored driver stmts
      → All IsComplete stmts
      → ctx.statements_left ≡ none
      → ctx.keys_left ≡ none
      → do_gc db ds offline ctx (sql_db parse driver) store ≡ ok c
      → c.failed ≡ none
      → (k : Text) → has c.store k ≡ (has store k && any (uses (ds.b58_string k)) stmts)
  do_gc-exact ctx parse driver stmts store c parsed is complete live all e fine k =
      (do_gc-Collects ctx parse driver stmts store c parsed is complete live e k).1 all fine
