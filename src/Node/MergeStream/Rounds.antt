-- ===== src/Node/MergeStream/Rounds.antt =====
-- The invariant of the rounds of a merge: what is merged and what is pending was checked.
use concat.Base.{
  All-append_one, ℕ, ◌+◌, ◌-◌, ◌≡◌, refl, sym, ap, arith, Text, text_eq, Bool, true, false, Option,
  none, some, List, [], ◌∷◌, ◌++◌, Error, Result, ok, err, panic, if◌then◌else◌, length, ltb, All,
}
use concat.Base.Dict.{Dict}
use concat.Query.Statement.{Statement}
use concat.Node.Statements.{
  Verifier, KeyCache, check_statement, check_one, verify_statement, refusal_of,
}
use concat.Node.Statements.Verified.{IsCache, check_one-refusal_of}
use concat.Node.Database.{StreamValue, statement_value, string_value, failure, other_value}
use concat.Node.MergeStream.{
  merge_statement_keys, Handoff, taken, worker_failed, context_done, Merging, Round, goes, breaks,
  crashes, on, check_value, gather_keys, hand_over, hand_full, merged, merge_stmts, append_value,
  merge_value,
}

-- The state that a round ends in.
abbrev pub state : {Db : Type 0} → Round Db → Merging Db
state (goes m) = m
state (breaks e m) = m
state (crashes m) = m

-- The statements of a stream.
abbrev pub statements : List StreamValue → List Statement
statements [] = []
statements (statement_value s ∷ rest) = s ∷ statements rest
statements (string_value s ∷ rest) = statements rest
statements (failure e ∷ rest) = statements rest
statements (other_value ∷ rest) = statements rest

-- Merges of batches, one after the other, all of whose statements have a property.
pub data Batches {Db : Type 0} (merge_batch : List Statement → Db → Result ℕ × Db)
    (P : Statement → Type 0) : Db → Db → Type 0 where
  stay : {db : Db} → Batches merge_batch P db db
  more :
      {first db last : Db} (stmts : List Statement)
      → Batches merge_batch P first db
      → All P stmts
      → (merge_batch stmts db).1 ≡ last
      → Batches merge_batch P first last

-- The statement passes the check and the verification by itself.
abbrev pub Accepted : Verifier → Statement → Type 0
Accepted vr s = (check_statement s ≡ true) × (verify_statement vr s ≡ ok true)

module _ {Db : Type 0} (vr : Verifier) (from_b58 : Text → Result Text)
    (handoff : List (Dict Text Text) → Handoff) (merge_batch : List Statement → Db → Result ℕ × Db)
    (From : Statement → Type 0) (first : Db) where
  abbrev pub Good : Statement → Type 0
  Good s = Accepted vr s × From s

  pub record Inv (m : Merging Db) : Type 0 where
    pub cache : IsCache vr m.pkcache
    pub pending : All Good m.stmts
    pub merged_so_far : Batches merge_batch Good first m.db

  -- A round whose end has the invariant, and more where it goes on.
  abbrev pub Ended : (Merging Db → Type 0) → Round Db → Type 0
  Ended A (goes m) = Inv m × A m
  Ended A (breaks e m) = Inv m
  Ended A (crashes m) = Inv m

  abbrev pub Plain : Merging Db → Type 0
  Plain m = Unit

  pub on-Ended :
      (A B : Merging Db → Type 0) (r : Round Db) (f : Merging Db → Round Db)
      → Ended A r
      → ((m : Merging Db) → Inv m → A m → Ended B (f m))
      → Ended B (on vr from_b58 handoff merge_batch r f)
  on-Ended A B (goes m) f (i, a) h = h m i a
  on-Ended A B (breaks e m) f i h = i
  on-Ended A B (crashes m) f i h = i

  refusal_of-Accepted :
      (s : Statement)
      → refusal_of vr (check_statement s) (verify_statement vr s) ≡ none
      → Accepted vr s
  unfolding refusal_of
  refusal_of-Accepted s e = passed (check_statement s) (verify_statement vr s) e
    where
      passed : (b : Bool) (r : Result Bool) → refusal_of vr b r ≡ none → (b ≡ true) × (r ≡ ok true)
      passed false r i = ground arith
      passed true (ok true) i = (refl, refl)
      passed true (ok false) i = ground arith
      passed true (err x) i = ground arith
      passed true panic i = ground arith

  check_value-Ended :
      (s : Statement) (m : Merging Db)
      → From s
      → Inv m
      → Ended (λ m'. Good s) (check_value vr from_b58 handoff merge_batch s m)
  unfolding check_value
  check_value-Ended s m from i =
      let (same, is) = check_one-refusal_of vr (check_statement s) s m.pkcache i.cache in
      next (check_one vr (check_statement s) s m.pkcache).0
        (check_one vr (check_statement s) s m.pkcache).1 same is
    where
      next :
          (r : Option (Result Error)) (c : KeyCache)
          → r ≡ refusal_of vr (check_statement s) (verify_statement vr s)
          → IsCache vr c
          → Ended
              (λ m'. Good s)
              (elim r [
                | none ↦ goes (record m { pkcache = c })
                | some x ↦ elim x [
                  | ok e ↦ breaks e (record m { pkcache = c })
                  | err e ↦ breaks e (record m { pkcache = c })
                  | panic ↦ crashes (record m { pkcache = c })
                ]
              ])
      next none c same is = (
        record { cache = is; pending = i.pending; merged_so_far = i.merged_so_far },
        (refusal_of-Accepted s (sym same), from),
      )
      next (some (ok e)) c same is = record {
        cache = is;
        pending = i.pending;
        merged_so_far = i.merged_so_far;
      }
      next (some (err e)) c same is = record {
        cache = is;
        pending = i.pending;
        merged_so_far = i.merged_so_far;
      }
      next (some panic) c same is = record {
        cache = is;
        pending = i.pending;
        merged_so_far = i.merged_so_far;
      }

  gather_keys-Ended :
      (s : Statement) (m : Merging Db)
      → Inv m
      → Good s
      → Ended (λ m'. Good s) (gather_keys vr from_b58 handoff merge_batch s m)
  unfolding gather_keys
  gather_keys-Ended s m i g = gathered (merge_statement_keys from_b58 s m.keys)
    where
      gathered :
          (r : Result (Dict Text Text))
          → Ended
              (λ m'. Good s)
              (elim r [
                | ok keys ↦ goes (record m { keys = keys })
                | err e ↦ breaks e m
                | panic ↦ crashes m
              ])
      gathered (ok keys) =
          (record { cache = i.cache; pending = i.pending; merged_so_far = i.merged_so_far }, g)
      gathered (err e) = i
      gathered panic = i

  pub hand_over-Ended :
      (A : Type 0) (m : Merging Db)
      → Inv m
      → A
      → Ended (λ m'. A) (hand_over vr from_b58 handoff merge_batch m)
  unfolding hand_over
  hand_over-Ended A m i a = handed_over (handoff m.handed)
    where
      handed_over :
          (h : Handoff)
          → Ended
              (λ m'. A)
              (elim h [
                | taken ↦ goes (record m { keys = []; handed = m.keys ∷ m.handed })
                | worker_failed n e ↦
                    breaks e (record m { ocount = m.ocount + n; workers = m.workers - 1 })
                | context_done e ↦ breaks e m
              ])
      handed_over taken =
          (record { cache = i.cache; pending = i.pending; merged_so_far = i.merged_so_far }, a)
      handed_over (worker_failed n e) = record {
        cache = i.cache;
        pending = i.pending;
        merged_so_far = i.merged_so_far;
      }
      handed_over (context_done e) = i

  -- A round under a test, or none.
  pub if-Ended :
      (A : Merging Db → Type 0) (b : Bool) (r r' : Round Db)
      → Ended A r
      → Ended A r'
      → Ended A (if b then r else r')
  if-Ended A true r r' e e' = e
  if-Ended A false r r' e e' = e'

  pub merge_stmts-Ended :
      (m : Merging Db) → Inv m → Ended Plain (merge_stmts vr from_b58 handoff merge_batch m)
  unfolding merge_stmts merged
  merge_stmts-Ended m i = done (merge_batch m.stmts m.db) refl
    where
      done :
          (r : Result ℕ × Db)
          → merge_batch m.stmts m.db ≡ r
          → Ended Plain (merged vr from_b58 handoff merge_batch r m)
      done (ok n, db') e = (
        record {
          cache = i.cache;
          pending = tt;
          merged_so_far = more m.stmts i.merged_so_far i.pending (ap (λ r. r.1) e);
        },
        tt,
      )
      done (err x, db') e = record {
        cache = i.cache;
        pending = i.pending;
        merged_so_far = more m.stmts i.merged_so_far i.pending (ap (λ r. r.1) e);
      }
      done (panic, db') e = record {
        cache = i.cache;
        pending = i.pending;
        merged_so_far = more m.stmts i.merged_so_far i.pending (ap (λ r. r.1) e);
      }

  append_value-Ended :
      (s : Statement) (m : Merging Db)
      → Inv m
      → Good s
      → Ended Plain (append_value vr from_b58 handoff merge_batch s m)
  unfolding append_value
  append_value-Ended s m i g =
      let i' : Inv (record m { stmts = m.stmts ++ (s ∷ []) }) = record {
        cache = i.cache;
        pending = All-append_one Good m.stmts s i.pending g;
        merged_so_far = i.merged_so_far;
      } in
      if-Ended Plain (ltb (length (m.stmts ++ (s ∷ []))) 1024) _ _ (i', tt)
        (merge_stmts-Ended (record m { stmts = m.stmts ++ (s ∷ []) }) i')

  pub merge_value-Ended :
      (s : Statement) (m : Merging Db)
      → From s
      → Inv m
      → Ended Plain (merge_value vr from_b58 handoff merge_batch s m)
  unfolding merge_value hand_full
  merge_value-Ended s m from i =
      on-Ended (λ m'. Good s) Plain _ _
        (on-Ended (λ m'. Good s) (λ m'. Good s) _ _
          (on-Ended (λ m'. Good s) (λ m'. Good s) _ _ (check_value-Ended s m from i)
            (gather_keys-Ended s))
          (λ m' i' g.
            if-Ended (λ x. Good s) (ltb (length m'.keys) 1024) _ _ (i', g)
              (hand_over-Ended (Good s) m' i' g)))
        (append_value-Ended s)
