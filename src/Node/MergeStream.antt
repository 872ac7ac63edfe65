-- ===== src/Node/MergeStream.antt =====
-- mcnode/proto.go: doMergeStream and mergeStatementKeys. The goroutines that fetch objects are a
-- parameter: what happens where a batch of keys is handed to them, and their results at the end.
pub mod Rounds
pub mod Batches
pub mod Contents
pub mod Complete
use concat.Base.{
  ℕ, zero, suc, ◌+◌, ◌-◌, Text, text_eq, ◌==◌, Bool, true, false, Option, none, some, List, [], ◌∷◌,
  ◌++◌, Error, Result, ok, err, panic, bad_statement, bad_statement_body, bad_result, stream_error,
  ◌>>=◌, if◌then◌else◌, length, ltb,
}
use concat.Base.Dict.{Dict, lookup, put}
use concat.Query.Statement.{
  SimpleStatement, Statement, statement, StatementBody, nil, empty, simple, compound, envelope,
  archive, Statements, end, next,
}
use concat.Node.Statements.{Verifier, KeyCache, check_statement, check_one}
use concat.Node.Database.{StreamValue, statement_value, string_value, failure, other_value}

module _ (from_b58 : Text → Result Text) where
  -- mergeObjectKey, for a key that is there or not.
  unfoldable pub merge_object_key : Text → Dict Text Text → Result (Dict Text Text)
  merge_object_key key58 keys = elim (lookup keys key58) [
    | some have ↦ ok keys
    | none ↦ (from_b58 key58 >>= λ mhash. ok (put keys key58 mhash))
  ]

  unfoldable pub merge_object_keys : List Text → Dict Text Text → Result (Dict Text Text)
  unfolding merge_object_key
  merge_object_keys [] keys = ok keys
  merge_object_keys (dep ∷ deps) keys = do
    keys' ← merge_object_key dep keys
    merge_object_keys deps keys'

  -- mergeSimple
  unfoldable pub merge_simple : SimpleStatement → Dict Text Text → Result (Dict Text Text)
  unfolding merge_object_keys
  merge_simple s keys = do keys' ← merge_object_key s.object keys; merge_object_keys s.deps keys'

  unfoldable pub merge_compound : List SimpleStatement → Dict Text Text → Result (Dict Text Text)
  unfolding merge_simple
  merge_compound [] keys = ok keys
  merge_compound (s ∷ ss) keys = do keys' ← merge_simple s keys; merge_compound ss keys'

  -- mergeStatementKeys
  unfoldable mutual
    pub merge_statement_keys : Statement → Dict Text Text → Result (Dict Text Text)
    merge_statement_keys (statement h b) keys = merge_body_keys b keys

    pub merge_body_keys : StatementBody → Dict Text Text → Result (Dict Text Text)
    merge_body_keys nil keys = panic
    merge_body_keys empty keys = err bad_statement_body
    merge_body_keys (simple s) keys = merge_simple s keys
    merge_body_keys (compound ss) keys = merge_compound ss keys
    merge_body_keys (envelope stmts) keys = merge_envelope_keys stmts keys
    merge_body_keys archive keys = err bad_statement_body

    pub merge_envelope_keys : Statements → Dict Text Text → Result (Dict Text Text)
    merge_envelope_keys end keys = ok keys
    merge_envelope_keys (next stmt rest) keys = do
      keys' ← merge_statement_keys stmt keys
      merge_envelope_keys rest keys'

-- What the select takes: the batch of keys, the result of a goroutine, which ends early with an
-- error only, or the end of the context.
pub data Handoff : Type 0 where
  taken : Handoff
  worker_failed : ℕ → Error → Handoff
  context_done : Error → Handoff

-- The variables of doMergeStream, the batches of keys that were handed over, and how many values
-- were received.
pub record Merging (Db : Type 0) : Type 0 where
  pub received : ℕ
  pub pkcache : KeyCache
  pub stmts : List Statement
  pub keys : Dict Text Text
  pub handed : List (Dict Text Text)
  pub count : ℕ
  pub ocount : ℕ
  pub workers : ℕ
  pub db : Db

-- How a round of the loop ends: it goes on, it breaks with `err`, or it panics.
pub data Round (Db : Type 0) : Type 0 where
  goes : Merging Db → Round Db
  breaks : Error → Merging Db → Round Db
  crashes : Merging Db → Round Db

abbrev batch : ℕ
batch = 1024

module _ {Db : Type 0} (vr : Verifier) (from_b58 : Text → Result Text)
    (handoff : List (Dict Text Text) → Handoff)
    (merge_batch : List Statement → Db → Result ℕ × Db) where
  -- A round on from the state of the one before.
  abbrev pub on : Round Db → (Merging Db → Round Db) → Round Db
  on (goes m) f = f m
  on (breaks e m) f = breaks e m
  on (crashes m) f = crashes m

  -- The check and the verification of a statement.
  unfoldable pub check_value : Statement → Merging Db → Round Db
  check_value stmt m =
      let (refusal, pkcache) = check_one vr (check_statement stmt) stmt m.pkcache in
      elim refusal [
        | none ↦ goes (record m { pkcache = pkcache })
        | some r ↦ elim r [
          | ok e ↦ breaks e (record m { pkcache = pkcache })
          | err e ↦ breaks e (record m { pkcache = pkcache })
          | panic ↦ crashes (record m { pkcache = pkcache })
        ]
      ]

  unfoldable pub gather_keys : Statement → Merging Db → Round Db
  gather_keys stmt m = elim (merge_statement_keys from_b58 stmt m.keys) [
    | ok keys ↦ goes (record m { keys = keys })
    | err e ↦ breaks e m
    | panic ↦ crashes m
  ]

  -- The select that hands the keys over, which both places write; `keys` is made anew after the first
  -- and not used after the second.
  unfoldable pub hand_over : Merging Db → Round Db
  hand_over m = elim (handoff m.handed) [
    | taken ↦ goes (record m { keys = []; handed = m.keys ∷ m.handed })
    | worker_failed n e ↦ breaks e (record m { ocount = m.ocount + n; workers = m.workers - 1 })
    | context_done e ↦ breaks e m
  ]

  unfoldable pub hand_full : Merging Db → Round Db
  unfolding hand_over
  hand_full m = if ltb (length m.keys) batch then goes m else hand_over m

  -- `MergeBatch(stmts)`, which gives the count 0 with an error, and `stmts = stmts[:0]`.
  unfoldable pub merged : Result ℕ × Db → Merging Db → Round Db
  merged (ok n, db') m = goes (record m { stmts = []; count = m.count + n; db = db' })
  merged (err e, db') m = breaks e (record m { db = db' })
  merged (panic, db') m = crashes (record m { db = db' })

  unfoldable pub merge_stmts : Merging Db → Round Db
  unfolding merged
  merge_stmts m = merged (merge_batch m.stmts m.db) m

  -- `stmts = append(stmts, val)`, and the merge of a full batch.
  unfoldable pub append_value : Statement → Merging Db → Round Db
  unfolding merge_stmts
  append_value stmt m =
      if ltb (length (m.stmts ++ (stmt ∷ []))) batch
      then goes (record m { stmts = m.stmts ++ (stmt ∷ []) })
      else merge_stmts (record m { stmts = m.stmts ++ (stmt ∷ []) })

  -- The round of a statement.
  unfoldable pub merge_value : Statement → Merging Db → Round Db
  unfolding check_value gather_keys hand_full append_value
  merge_value stmt m =
      on (on (on (check_value stmt m) (gather_keys stmt)) hand_full) (append_value stmt)

  unfoldable pub merge_values : List StreamValue → Round Db → Round Db
  unfolding merge_value
  merge_values values (breaks e m) = breaks e m
  merge_values values (crashes m) = crashes m
  merge_values [] (goes m) = goes m
  merge_values (statement_value stmt ∷ rest) (goes m) =
      merge_values rest (merge_value stmt (record m { received = m.received + 1 }))
  merge_values (failure e ∷ rest) (goes m) =
      breaks (stream_error e) (record m { received = m.received + 1 })
  merge_values (string_value s ∷ rest) (goes m) =
      breaks bad_result (record m { received = m.received + 1 })
  merge_values (other_value ∷ rest) (goes m) =
      breaks bad_result (record m { received = m.received + 1 })

  -- `if len(keys) > 0 && err == nil`
  unfoldable pub hand_last : Merging Db → Round Db
  unfolding hand_over
  hand_last m = if ltb 0 (length m.keys) then hand_over m else goes m

  -- `if len(stmts) > 0 && err == nil`
  unfoldable pub merge_last : Merging Db → Round Db
  unfolding merge_stmts
  merge_last m = if ltb 0 (length m.stmts) then merge_stmts m else goes m

  unfoldable pub start : ℕ → Db → Merging Db
  start cpus db = record {
    received = 0;
    pkcache = [];
    stmts = [];
    keys = [];
    handed = [];
    count = 0;
    ocount = 0;
    workers = cpus;
    db = db;
  }

  -- doMergeStream up to `close(workch)`.
  unfoldable pub run_merge : List StreamValue → ℕ → Db → Round Db
  unfolding merge_values hand_last merge_last start
  run_merge values cpus db =
      on (on (merge_values values (goes (start cpus db))) hand_last) merge_last

-- The results of the goroutines that remain: the objects and the first error.
unfoldable pub collect : List (ℕ × Option Error) → ℕ → Option Error → ℕ × Option Error
collect [] ocount e = (ocount, e)
collect ((n, f) ∷ rest) ocount none = collect rest (ocount + n) f
collect ((n, f) ∷ rest) ocount (some e) = collect rest (ocount + n) (some e)

-- The results of doMergeStream with the database; `results` are those of a number of goroutines.
pub record MergeEnd (Db : Type 0) : Type 0 where
  pub scount : ℕ
  pub objects : ℕ
  pub failed : Option Error
  pub merging : Merging Db

unfoldable pub end_merge :
    {Db : Type 0} → (ℕ → List (ℕ × Option Error)) → Option Error → Merging Db → MergeEnd Db
unfolding collect
end_merge results e m =
    let (ocount, f) = collect (results m.workers) m.ocount e in
    record { scount = m.count; objects = ocount; failed = f; merging = m }

-- `none` is a panic.
unfoldable pub merge_end :
    {Db : Type 0} → (ℕ → List (ℕ × Option Error)) → Round Db → Option (MergeEnd Db)
unfolding end_merge
merge_end results (goes m) = some (end_merge results none m)
merge_end results (breaks e m) = some (end_merge results (some e) m)
merge_end results (crashes m) = none
