-- ===== src/Node/Gc.antt =====
-- mcnode/gc.go: the collection of the objects that no statement refers to. SQLite's temporary
-- database of keys and the datastore are parameters, as is the base 58 text of a multihash.
pub mod Keys
pub mod Table
pub mod Exact
use concat.Base.{
  take, codes, ℕ, ◌+◌, Text, text_eq, ◌==◌, Bool, true, false, Option, none, some, List, [], ◌∷◌,
  Error, Result, ok, err, panic, primary_key_taken, bad_statement_body, bad_result, stream_error,
  node_must_be_offline, ◌>>=◌, if◌then◌else◌, insert, length, ltb,
}
use concat.Query.{Query}
use concat.Query.Statement.{
  SimpleStatement, Statement, statement, StatementBody, nil, empty, simple, compound, envelope,
  archive, Statements, end, next,
}
use concat.Node.Database.{StreamValue, statement_value, string_value, failure, other_value}
use concat.Node.Status.{Status, offline, online, public_status}

-- The temporary database: `begin` and `commit` fail or succeed.
pub record RefsDb (Db : Type 0) : Type 0 where
  pub opened : Result Db
  pub begin : Db → Option Error
  pub commit : Db → Option Error
  pub insert_key : Text → Db → Result Db
  pub count_keys : Text → Db → Result ℕ

-- What the collection calls of the datastore.
pub record Objects (Store : Type 0) : Type 0 where
  pub iter_keys : Store → Result (List Text)
  pub delete : Text → Store → Result Store
  pub compact : Store → Store
  pub b58_string : Text → Text

-- `keys[key] = true` for each of some keys.
unfoldable pub insert_all : List Text → List Text → List Text
insert_all keys [] = keys
insert_all keys (key ∷ rest) = insert_all (insert keys key) rest

-- addSimpleKeys
unfoldable pub add_simple_keys : SimpleStatement → List Text → List Text
unfolding insert_all
add_simple_keys s keys = insert_all (insert keys s.object) s.deps

unfoldable pub add_compound_keys : List SimpleStatement → List Text → List Text
unfolding add_simple_keys
add_compound_keys [] keys = keys
add_compound_keys (s ∷ ss) keys = add_compound_keys ss (add_simple_keys s keys)

-- addKeys, with the keys that it has added where it fails. A nil `*StatementBody` panics.
unfoldable mutual
  pub add_keys : Statement → List Text → Result (List Text × Option Error)
  add_keys (statement h b) keys = add_body_keys b keys

  pub add_body_keys : StatementBody → List Text → Result (List Text × Option Error)
  add_body_keys nil keys = panic
  add_body_keys empty keys = ok (keys, some bad_statement_body)
  add_body_keys (simple s) keys = ok (add_simple_keys s keys, none)
  add_body_keys (compound ss) keys = ok (add_compound_keys ss keys, none)
  add_body_keys (envelope stmts) keys = add_envelope_keys stmts (ok (keys, none))
  add_body_keys archive keys = ok (keys, some bad_statement_body)

  -- The loop over an envelope, from the keys and the error of the statements before.
  pub add_envelope_keys :
      Statements → Result (List Text × Option Error) → Result (List Text × Option Error)
  add_envelope_keys stmts panic = panic
  add_envelope_keys stmts (err e) = err e
  add_envelope_keys stmts (ok (keys, some e)) = ok (keys, some e)
  add_envelope_keys end (ok (keys, none)) = ok (keys, none)
  add_envelope_keys (next stmt rest) (ok (keys, none)) = add_envelope_keys rest (add_keys stmt keys)

-- The results `count` and `err` of a collection, with the datastore.
pub record Collected (Store : Type 0) : Type 0 where
  pub count : ℕ
  pub store : Store
  pub failed : Option Error

-- The parser, and the results of a query on the statement database: what the channel of QueryStream
-- delivers while it is read, or its error.
pub record StatementDb : Type 0 where
  pub parse_query : Text → Result Query
  pub query_stream : Query → Result (List StreamValue)

-- The context of a collection: how many values the channel of QueryStream delivers before the context
-- is done, and how many that of IterKeys; `none` where it is not done while the channel is read.
pub record Context : Type 0 where
  pub statements_left : Option ℕ
  pub keys_left : Option ℕ

-- A channel is closed without an error once the context is done.
abbrev pub delivered : {A : Type 0} → Option ℕ → List A → List A
delivered none l = l
delivered (some n) l = take n l

abbrev gc_batch : ℕ
gc_batch = 1024

module _ {Db Store : Type 0} (db : RefsDb Db) (ds : Objects Store) where
  -- The insertion of a key: a key that is there already is passed over.
  unfoldable pub key_inserted : Result Db → Db → Result Db
  key_inserted (ok tx') tx = ok tx'
  key_inserted (err primary_key_taken) tx = ok tx
  key_inserted (err e) tx = err e
  key_inserted panic tx = panic

  -- The loop of mergeKeys.
  unfoldable pub insert_keys : List Text → Db → Result Db
  unfolding key_inserted
  insert_keys [] tx = ok tx
  insert_keys (key ∷ keys) tx = do
    tx' ← key_inserted (db.insert_key key tx) tx
    insert_keys keys tx'

  abbrev pub failing : Option Error → Result (Unit {0})
  failing none = ok tt
  failing (some e) = err e

  -- mergeKeys. Where it fails the collection ends, and its temporary database is closed.
  unfoldable pub merge_keys : List Text → Db → Result Db
  unfolding insert_keys
  merge_keys keys tx = do
    _ ← failing (db.begin tx)
    tx' ← insert_keys keys tx
    _ ← failing (db.commit tx')
    ok tx'

  -- The keys, merged once there are a batch of them.
  unfoldable pub merge_full : List Text → Db → Result (List Text × Db)
  unfolding merge_keys
  merge_full keys tx =
      if ltb (length keys) gc_batch
      then ok (keys, tx)
      else (merge_keys keys tx >>= λ tx'. ok ([], tx'))

  -- The loop of Merge over the statements, with the keys of the last batch. The error of addKeys is
  -- not looked at.
  unfoldable pub merge_loop : List StreamValue → List Text → Db → Result (List Text × Db)
  unfolding merge_full
  merge_loop [] keys tx = ok (keys, tx)
  merge_loop (statement_value stmt ∷ rest) keys tx = do
    (keys1, e) ← add_keys stmt keys
    (keys2, tx') ← merge_full keys1 tx
    merge_loop rest keys2 tx'
  merge_loop (failure e ∷ rest) keys tx = err (stream_error e)
  merge_loop (string_value s ∷ rest) keys tx = err bad_result
  merge_loop (other_value ∷ rest) keys tx = err bad_result

  -- `if len(keys) > 0 { return gc.mergeKeys(keys) }`
  unfoldable pub merge_last : List Text → Db → Result Db
  unfolding merge_keys
  merge_last [] tx = ok tx
  merge_last (key ∷ keys) tx = merge_keys (key ∷ keys) tx

  unfoldable pub merge : Context → StatementDb → Db → Result Db
  unfolding merge_loop merge_last
  merge ctx sdb tx = do
    q ← sdb.parse_query (codes "SELECT * FROM *")
    ch ← sdb.query_stream q
    (keys, tx') ← merge_loop (delivered ctx.statements_left ch) [] tx
    merge_last keys tx'

  unfoldable pub valid_key : Text → Db → Result Bool
  valid_key key refs = db.count_keys (ds.b58_string key) refs >>= λ count. ok (ltb 0 count)

  abbrev pub stop : ℕ → Store → Error → Result (Collected Store)
  stop count store e = ok (record { count = count; store = store; failed = some e })

  -- The loop of GC over the keys of the datastore.
  unfoldable pub delete_loop : Db → List Text → ℕ → Store → Result (Collected Store)
  delete_loop refs [] count store = ok (record { count = count; store = store; failed = none })
  delete_loop refs (key ∷ keys) count store = elim (valid_key key refs) [
    | panic ↦ panic
    | err e ↦ stop count store e
    | ok true ↦ delete_loop refs keys count store
    | ok false ↦ elim (ds.delete key store) [
      | panic ↦ panic
      | err e ↦ stop count store e
      | ok store' ↦ delete_loop refs keys (count + 1) store'
    ]
  ]

  -- `if count > 0 { ds.Compact() }`, which an error passes by.
  unfoldable pub compacted : Collected Store → Collected Store
  compacted c = elim c.failed [
    | none ↦ if ltb 0 c.count then record c { store = ds.compact c.store } else c
    | some e ↦ c
  ]

  unfoldable pub gc : Context → Db → Store → Result (Collected Store)
  unfolding delete_loop compacted
  gc ctx refs store = elim (ds.iter_keys store) [
    | panic ↦ panic
    | err e ↦ stop 0 store e
    | ok keys ↦ (delete_loop refs (delivered ctx.keys_left keys) 0 store >>= λ c. ok (compacted c))
  ]

  -- GC with the keys that Open and Merge have left, or their error.
  unfoldable pub gc_merged : Context → Result Db → Store → Result (Collected Store)
  unfolding gc
  gc_merged ctx panic store = panic
  gc_merged ctx (err e) store = stop 0 store e
  gc_merged ctx (ok refs) store = gc ctx refs store

  -- doGC
  unfoldable pub do_gc : Status → Context → StatementDb → Store → Result (Collected Store)
  unfolding gc_merged merge
  do_gc offline ctx sdb store = gc_merged ctx (db.opened >>= merge ctx sdb) store
  do_gc online ctx sdb store = stop 0 store node_must_be_offline
  do_gc public_status ctx sdb store = stop 0 store node_must_be_offline
