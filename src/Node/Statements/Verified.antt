-- ===== src/Node/Statements/Verified.antt =====
-- What an import checks of statements, without the cache of keys.
use concat.Base.{
  ℕ, ◌≡◌, refl, ap, Text, text_eq, text_dec, Bool, true, false, Option, none, some, List, [], ◌∷◌,
  Error, Result, ok, err, panic, arith, bad_statement, if◌then◌else◌,
}
use concat.Base.Dict.{lookup, put, lookup-put}
use concat.Query.Statement.{Statement, header}
use concat.Node.Statements.{
  Verifier, KeyCache, publisher_key, verify_statement, verify_with, verify_statement_cache_keys,
  check_statement, refusal_of, check_one, check_all, import_unless, do_import,
}

module _ (vr : Verifier) where
  -- Every key in the cache is the key of its publisher.
  abbrev pub IsCache : KeyCache → Type 0
  IsCache pkcache =
      (id58 pubk : Text) → lookup pkcache id58 ≡ some pubk → publisher_key vr id58 ≡ ok pubk

  -- The first statement that is refused, each checked and verified by itself.
  unfoldable pub first_refusal : List Statement → Option (Result Error)
  first_refusal [] = none
  first_refusal (stmt ∷ stmts) =
      elim (refusal_of vr (check_statement stmt) (verify_statement vr stmt)) [
        | none ↦ first_refusal stmts
        | some e ↦ some e
      ]

  put-IsCache :
      (pkcache : KeyCache) (id58 pubk : Text)
      → IsCache pkcache
      → publisher_key vr id58 ≡ ok pubk
      → IsCache (put pkcache id58 pubk)
  put-IsCache pkcache id58 pubk is e j k found = elim (text_dec j id58) [
    | yes same ↦
        let key : pubk ≡ k = ground (arith, lookup-put pkcache id58 pubk j) in rw (same, ← key) e
    | no differs ↦ is j k (ground (arith, lookup-put pkcache id58 pubk j))
  ]

  -- Verifying with the cache answers as without it, and leaves a cache.
  abbrev Same : Statement → Result Bool × KeyCache → Type 0
  Same stmt (verify, pkcache) = (verify ≡ verify_statement vr stmt) × IsCache pkcache

  verify_with-Same :
      (found : Option Text) (decoded : Result Text) (stmt : Statement) (pkcache : KeyCache)
      → IsCache pkcache
      → lookup pkcache (header stmt).publisher ≡ found
      → publisher_key vr (header stmt).publisher ≡ decoded
      → Same stmt (verify_with vr found decoded stmt pkcache)
  unfolding verify_with verify_statement
  verify_with-Same (some pubk) decoded stmt pkcache is ef ed =
      (rw (is (header stmt).publisher pubk ef), is)
  verify_with-Same none (ok pubk) stmt pkcache is ef ed =
      (rw ed, put-IsCache pkcache (header stmt).publisher pubk is ed)
  verify_with-Same none (err e) stmt pkcache is ef ed = (rw ed, is)
  verify_with-Same none panic stmt pkcache is ef ed = (rw ed, is)

  pub check_one-refusal_of :
      (passes : Bool) (stmt : Statement) (pkcache : KeyCache)
      → IsCache pkcache
      → ((check_one vr passes stmt pkcache).0 ≡ refusal_of vr passes (verify_statement vr stmt))
        × IsCache (check_one vr passes stmt pkcache).1
  unfolding check_one refusal_of verify_statement_cache_keys
  check_one-refusal_of false stmt pkcache is = (refl, is)
  check_one-refusal_of true stmt pkcache is =
      let (same, is') =
        verify_with-Same (lookup pkcache (header stmt).publisher)
          (publisher_key vr (header stmt).publisher) stmt pkcache is refl refl in
      (ap (refusal_of vr true) same, is')

  check_all-first_refusal :
      (stmts : List Statement) (pkcache : KeyCache)
      → IsCache pkcache
      → ((check_all vr stmts pkcache).0 ≡ first_refusal stmts)
        × IsCache (check_all vr stmts pkcache).1
  unfolding check_all first_refusal
  check_all-first_refusal [] pkcache is = (refl, is)
  check_all-first_refusal (stmt ∷ stmts) pkcache is =
      let (same, is') = check_one-refusal_of (check_statement stmt) stmt pkcache is in
      next (check_one vr (check_statement stmt) stmt pkcache).0
        (refusal_of vr (check_statement stmt) (verify_statement vr stmt)) same
        (check_one vr (check_statement stmt) stmt pkcache).1 is'
        (λ c isc. check_all-first_refusal stmts c isc)
    where
      next :
          (r r' : Option (Result Error))
          → r ≡ r'
          → (c : KeyCache) → IsCache c
          → ((c : KeyCache)
              → IsCache c
              → ((check_all vr stmts c).0 ≡ first_refusal stmts) × IsCache (check_all vr stmts c).1)
          → ((elim r as (λ _. Option (Result Error) × KeyCache) [
            | none ↦ check_all vr stmts c
            | some e ↦ (some e, c)
          ]).0
              ≡ (elim r' as (λ _. Option (Result Error)) [
                | none ↦ first_refusal stmts
                | some e ↦ some e
              ]))
            × IsCache
                (elim r as (λ _. Option (Result Error) × KeyCache) [
                  | none ↦ check_all vr stmts c
                  | some e ↦ (some e, c)
                ]).1
      next none none e c isc rest = rest c isc
      next none (some x) e c isc rest = ground arith
      next (some x) none e c isc rest = ground arith
      next (some x) (some y) e c isc rest = (e, isc)

  -- How an import ends that reads each statement by itself: with what the merge gives where every
  -- statement passes the check and the verification, and otherwise with the database from before, and
  -- the error or the panic of the first statement that does not.
  abbrev pub by_each : {Db : Type 0} → List Statement → Result ℕ × Db → Db → Result ℕ × Db
  by_each [] merged db = merged
  by_each (stmt ∷ stmts) merged db =
      if check_statement stmt
      then (elim (verify_statement vr stmt) [
        | ok true ↦ by_each stmts merged db
        | ok false ↦ (err bad_statement, db)
        | err e ↦ (err e, db)
        | panic ↦ (panic, db)
      ])
      else (err bad_statement, db)

  import_unless-by_each :
      {Db : Type 0} (merge_batch : List Statement → Db → Result ℕ × Db)
      (batch stmts : List Statement) (db : Db)
      → import_unless vr merge_batch (first_refusal stmts) batch db
        ≡ by_each stmts (merge_batch batch db) db
  unfolding import_unless first_refusal refusal_of
  import_unless-by_each merge_batch batch [] db = refl
  import_unless-by_each merge_batch batch (stmt ∷ stmts) db =
      next (check_statement stmt) (verify_statement vr stmt)
        (import_unless-by_each merge_batch batch stmts db)
    where
      next :
          (checks : Bool) (verified : Result Bool)
          → import_unless vr merge_batch (first_refusal stmts) batch db
            ≡ by_each stmts (merge_batch batch db) db
          → import_unless vr merge_batch
              (elim (refusal_of vr checks verified) as (λ _. Option (Result Error)) [
                | none ↦ first_refusal stmts
                | some e ↦ some e
              ])
              batch
              db
            ≡ (if checks
                then (elim verified [
                  | ok true ↦ by_each stmts (merge_batch batch db) db
                  | ok false ↦ (err bad_statement, db)
                  | err e ↦ (err e, db)
                  | panic ↦ (panic, db)
                ])
                else (err bad_statement, db))
      next false verified rest = refl
      next true (ok true) rest = rest
      next true (ok false) rest = refl
      next true (err e) rest = refl
      next true panic rest = refl

  -- An import with a cache of right keys merges the batch where each of its statements passes the
  -- check and the verification by itself, without the cache; otherwise it ends with the error or the
  -- panic of the first one that does not, and the database is as before. The cache still has right
  -- keys.
  pub do_import-by_each :
      {Db : Type 0} (merge_batch : List Statement → Db → Result ℕ × Db) (stmts : List Statement)
      (pkcache : KeyCache) (db : Db)
      → IsCache pkcache
      → ((do_import vr merge_batch stmts pkcache db).0 ≡ by_each stmts (merge_batch stmts db) db)
        × IsCache (do_import vr merge_batch stmts pkcache db).1
  unfolding do_import
  do_import-by_each merge_batch stmts pkcache db is =
      let (same, is') = check_all-first_refusal stmts pkcache is in
      (rw same (import_unless-by_each merge_batch stmts stmts db), is')
