-- ===== src/Node/Statements.antt =====
-- mcnode/node.go: statements are made, signed, checked, verified and imported.
pub mod Verified
pub mod Made
use concat.Base.{
  ℕ, ◌+◌, ◌%◌, ◌^◌, Text, text_eq, codes, ◌==◌, Bool, true, false, ◌&&◌, not, Option, none, some,
  List, [], ◌∷◌, ◌++◌, map, Error, Result, ok, err, panic, bad_statement, bad_statement_body, ◌>>=◌,
  if◌then◌else◌,
}
use concat.Base.Int.{ℤ, pos, ltb_ℤ}
use concat.Base.Dict.{Dict, lookup, put}
use concat.Query.Statement.{
  SimpleStatement, Header, Statement, statement, StatementBody, nil, simple, compound, envelope,
  archive, Statements, header, body,
}

-- protobuf's encoding of a statement, the decoding of a publisher's key, and the check of a
-- signature under a key.
pub record Verifier : Type 0 where
  pub marshal : Statement → Result Text
  pub b58_decode : Text → Text
  pub unmarshal_key : Text → Result Text
  pub verify : Text → Text → Option Text → Result Bool

abbrev pub present : Option Text → Bool
present none = false
present (some sig) = true

abbrev pub has_body : StatementBody → Bool
has_body nil = false
has_body b = true

unfoldable pub check_statement : Statement → Bool
check_statement (statement h b) =
    not (h.id == [])
    && (not (h.publisher == [])
        && (not (h.namespace == [])
            && (ltb_ℤ (pos 0) h.timestamp && (has_body b && present h.signature))))

-- The statement while its signature is set to nil.
abbrev pub unsigned : Statement → Statement
unsigned (statement h b) = statement (record h { signature = none }) b

-- The keys of publishers that were looked up already.
abbrev pub KeyCache : Type 0
KeyCache = Dict Text Text

module _ (vr : Verifier) where
  -- PublisherKey of mc/identity.go
  unfoldable pub publisher_key : Text → Result Text
  publisher_key id58 = vr.unmarshal_key (vr.b58_decode id58)

  unfoldable pub verify_statement_sig : Statement → Text → Result Bool
  verify_statement_sig stmt pubk = do
    bytes ← vr.marshal (unsigned stmt)
    vr.verify pubk bytes (header stmt).signature

  unfoldable pub verify_statement : Statement → Result Bool
  unfolding publisher_key verify_statement_sig
  verify_statement stmt = do
    pubk ← publisher_key (header stmt).publisher
    verify_statement_sig stmt pubk

  -- verifyStatementCacheKeys, for a publisher that is in the cache or whose key is decoded.
  unfoldable pub verify_with :
      Option Text → Result Text → Statement → KeyCache → Result Bool × KeyCache
  unfolding verify_statement_sig
  verify_with (some pubk) decoded stmt pkcache = (verify_statement_sig stmt pubk, pkcache)
  verify_with none (ok pubk) stmt pkcache =
      (verify_statement_sig stmt pubk, put pkcache (header stmt).publisher pubk)
  verify_with none (err e) stmt pkcache = (err e, pkcache)
  verify_with none panic stmt pkcache = (panic, pkcache)

  unfoldable pub verify_statement_cache_keys : Statement → KeyCache → Result Bool × KeyCache
  unfolding verify_with publisher_key
  verify_statement_cache_keys stmt pkcache =
      verify_with (lookup pkcache (header stmt).publisher) (publisher_key (header stmt).publisher)
        stmt pkcache

  -- What the two tests that precede every merge say of a statement: nothing, or the end of the call.
  unfoldable pub refusal_of : Bool → Result Bool → Option (Result Error)
  refusal_of false verify = some (ok bad_statement)
  refusal_of true (ok true) = none
  refusal_of true (ok false) = some (ok bad_statement)
  refusal_of true (err e) = some (ok e)
  refusal_of true panic = some panic

  -- One round of the loop of doImport.
  unfoldable pub check_one : Bool → Statement → KeyCache → Option (Result Error) × KeyCache
  unfolding verify_statement_cache_keys refusal_of
  check_one false stmt pkcache = (some (ok bad_statement), pkcache)
  check_one true stmt pkcache =
      let (verify, pkcache') = verify_statement_cache_keys stmt pkcache in
      (refusal_of true verify, pkcache')

  -- The loop of doImport: the first refusal, and the cache.
  unfoldable pub check_all : List Statement → KeyCache → Option (Result Error) × KeyCache
  unfolding check_statement check_one
  check_all [] pkcache = (none, pkcache)
  check_all (stmt ∷ stmts) pkcache =
      let (refusal, pkcache') = check_one (check_statement stmt) stmt pkcache in
      elim refusal [ none ↦ check_all stmts pkcache' | some e ↦ (some e, pkcache') ]

  module _ {Db : Type 0} (merge_batch : List Statement → Db → Result ℕ × Db) where
    -- `return 0, err`, or the merge.
    unfoldable pub import_unless : Option (Result Error) → List Statement → Db → Result ℕ × Db
    import_unless none stmts db = merge_batch stmts db
    import_unless (some (ok e)) stmts db = (err e, db)
    import_unless (some (err e)) stmts db = (err e, db)
    import_unless (some panic) stmts db = (panic, db)

    unfoldable pub do_import : List Statement → KeyCache → Db → (Result ℕ × Db) × KeyCache
    unfolding check_all import_unless
    do_import stmts pkcache db =
        let (refusal, pkcache') = check_all stmts pkcache in
        (import_unless refusal stmts db, pkcache')

-- The fields of Node that making statements uses: the publisher's identity, the counter of
-- statements, an int in its 64 bits, and the addresses that are not in use.
pub record Maker : Type 0 where
  pub id58 : Text
  pub counter : ℕ
  pub free : ℕ

-- stmtCounter
unfoldable pub stmt_counter : Maker → ℕ × Maker
stmt_counter node = (node.counter, record node { counter = (node.counter + 1) % 2 ^ 64 })

-- The messages that can be published, and others.
pub data Publication : Type 0 where
  simple_statement : SimpleStatement → Publication
  compound_statement : List SimpleStatement → Publication
  envelope_statement : Statements → Publication
  archive_statement : Publication
  other : Publication

abbrev pub body_of : Publication → Result StatementBody
body_of (simple_statement s) = ok (simple s)
body_of (compound_statement ss) = ok (compound ss)
body_of (envelope_statement stmts) = ok (envelope stmts)
body_of archive_statement = ok archive
body_of other = err bad_statement_body

-- `sign` is the publisher's private key; `show` is `%d` of an int in its 64 bits and `show_time` of
-- an int64.
pub record Signer : Type 0 where
  pub encoding : Statement → Result Text
  pub sign : Text → Result Text
  pub show : ℕ → Text
  pub show_time : ℤ → Text

abbrev pub ids : List Statement → List Text
ids = map (λ stmt. (header stmt).id)

module _ (sg : Signer) where
  -- `fmt.Sprintf("%s:%d:%d", pid, ts, counter)`
  abbrev pub statement_id : Text → ℤ → ℕ → Text
  statement_id pid ts counter =
      pid ++ (codes ":" ++ (sg.show_time ts ++ (codes ":" ++ sg.show counter)))

  unfoldable pub sign_statement : Statement → Result Statement
  sign_statement (statement h b) = do
    bytes ← sg.encoding (statement h b)
    sig ← sg.sign bytes
    ok (statement (record h { signature = some sig }) b)

  -- The statement that makeStatement signs.
  abbrev pub draft : Text → ℤ → Maker → StatementBody → Statement
  draft ns ts node b =
      statement
        (record {
          addr = node.free;
          body_addr = node.free + 1;
          id = statement_id node.id58 ts node.counter;
          publisher = node.id58;
          namespace = ns;
          timestamp = ts;
          signature = none;
        })
        b

  -- makeStatement at the time `ts`.
  unfoldable pub make_statement : Text → Publication → ℤ → Maker → Result Statement × Maker
  unfolding stmt_counter sign_statement
  make_statement ns publication ts node =
      let (_, node') = stmt_counter node in
      (
        (body_of publication >>= λ b. sign_statement (draft ns ts node b)),
        record node' { free = node.free + 2 },
      )

  -- The loop of doPublishBatch; the clock gives a time to each statement.
  unfoldable pub make_statements :
      Text → List (Publication × ℤ) → Maker → Result (List Statement) × Maker
  unfolding make_statement
  make_statements ns [] node = (ok [], node)
  make_statements ns ((publication, ts) ∷ lst) node =
      let (made, node') = make_statement ns publication ts node in
      elim made [
        | panic ↦ (panic, node')
        | err e ↦ (err e, node')
        | ok stmt ↦
            let (rest, node'') = make_statements ns lst node' in
            (rest >>= λ stmts. ok (stmt ∷ stmts), node'')
      ]

  module _ {Db : Type 0} (put_batch : List Statement → Db → Result (Unit {0}) × Db) where
    -- `err := node.db.PutBatch(stmts)` and what follows.
    unfoldable pub publish_made : Result (List Statement) → Db → Result (List Text) × Db
    publish_made (ok stmts) db =
        let (done, db') = put_batch stmts db in (done >>= λ _. ok (ids stmts), db')
    publish_made (err e) db = (err e, db)
    publish_made panic db = (panic, db)

    unfoldable pub do_publish_batch :
        Text → List (Publication × ℤ) → Maker → Db → (Result (List Text) × Db) × Maker
    unfolding make_statements publish_made
    do_publish_batch ns lst node db =
        let (made, node') = make_statements ns lst node in (publish_made made db, node')
