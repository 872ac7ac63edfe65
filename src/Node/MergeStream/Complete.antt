-- ===== src/Node/MergeStream/Complete.antt =====
-- A merge of a stream that does not fail has merged all of it.
use concat.Base.{
  ℕ, ◌+◌, ◌-◌, ◌≡◌, refl, sym, ap, subst, ◌∙◌, arith, append_assoc, append-nil, Text, Bool, true,
  false, Option, none, some, List, [], ◌∷◌, ◌++◌, Error, Result, ok, err, panic, if◌then◌else◌,
  length, ltb, Bool-cases, inl, inr,
}
use concat.Base.Dict.{Dict}
use concat.Query.Statement.{Statement}
use concat.Node.Statements.{Verifier, KeyCache, check_statement, check_one}
use concat.Node.Database.{StreamValue, statement_value, string_value, failure, other_value}
use concat.Node.MergeStream.{
  merge_statement_keys, Handoff, taken, worker_failed, context_done, Merging, Round, goes, breaks,
  crashes, on, check_value, gather_keys, hand_over, hand_full, merged, merge_stmts, append_value,
  merge_value, merge_values, hand_last, merge_last, start, run_merge,
}
use concat.Node.MergeStream.Rounds.{statements}

-- Merges of batches that all succeed, with the statements of the batches and the sum of the counts.
pub data Runs {Db : Type 0} (merge_batch : List Statement → Db → Result ℕ × Db)
    : Db → List Statement → ℕ → Db → Type 0 where
  begin : {db : Db} → Runs merge_batch db [] 0 db
  batch :
      {first db last : Db} {done : List Statement} {n k : ℕ} (stmts : List Statement)
      → Runs merge_batch first done n db
      → merge_batch stmts db ≡ (ok k, last)
      → Runs merge_batch first (done ++ stmts) (n + k) last

module _ {Db : Type 0} (vr : Verifier) (from_b58 : Text → Result Text)
    (handoff : List (Dict Text Text) → Handoff) (merge_batch : List Statement → Db → Result ℕ × Db)
    (first : Db) where
  -- The statements so far are those of the batches, and those that are pending.
  abbrev Seen : List Statement → Merging Db → Type 0
  Seen seen m =
      (done : List Statement) × Runs merge_batch first done m.count m.db × (done ++ m.stmts ≡ seen)

  -- A round that goes on has a property.
  abbrev Goes : (Merging Db → Type 0) → Round Db → Type 0
  Goes A (goes m) = A m
  Goes A (breaks e m) = Unit
  Goes A (crashes m) = Unit

  on-Goes :
      (A B : Merging Db → Type 0) (r : Round Db) (f : Merging Db → Round Db)
      → Goes A r
      → ((m : Merging Db) → A m → Goes B (f m))
      → Goes B (on vr from_b58 handoff merge_batch r f)
  on-Goes A B (goes m) f a h = h m a
  on-Goes A B (breaks e m) f a h = tt
  on-Goes A B (crashes m) f a h = tt

  if-Goes :
      (A : Merging Db → Type 0) (b : Bool) (r r' : Round Db)
      → Goes A r
      → Goes A r'
      → Goes A (if b then r else r')
  if-Goes A true r r' g g' = g
  if-Goes A false r r' g g' = g'

  check_value-Goes :
      (seen : List Statement) (s : Statement) (m : Merging Db)
      → Seen seen m
      → Goes (Seen seen) (check_value vr from_b58 handoff merge_batch s m)
  unfolding check_value
  check_value-Goes seen s m g =
      checked (check_one vr (check_statement s) s m.pkcache).0
        (check_one vr (check_statement s) s m.pkcache).1
    where
      checked :
          (r : Option (Result Error)) (c : KeyCache)
          → Goes (Seen seen) (elim r [
            | none ↦ goes (record m { pkcache = c })
            | some x ↦ elim x [
              | ok e ↦ breaks e (record m { pkcache = c })
              | err e ↦ breaks e (record m { pkcache = c })
              | panic ↦ crashes (record m { pkcache = c })
            ]
          ])
      checked none c = g
      checked (some (ok e)) c = tt
      checked (some (err e)) c = tt
      checked (some panic) c = tt

  gather_keys-Goes :
      (seen : List Statement) (s : Statement) (m : Merging Db)
      → Seen seen m
      → Goes (Seen seen) (gather_keys vr from_b58 handoff merge_batch s m)
  unfolding gather_keys
  gather_keys-Goes seen s m g = gathered (merge_statement_keys from_b58 s m.keys)
    where
      gathered :
          (r : Result (Dict Text Text))
          → Goes (Seen seen) (elim r [
            | ok keys ↦ goes (record m { keys = keys })
            | err e ↦ breaks e m
            | panic ↦ crashes m
          ])
      gathered (ok keys) = g
      gathered (err e) = tt
      gathered panic = tt

  hand_over-Goes :
      (seen : List Statement) (m : Merging Db)
      → Seen seen m
      → Goes (Seen seen) (hand_over vr from_b58 handoff merge_batch m)
  unfolding hand_over
  hand_over-Goes seen m g = handed_over (handoff m.handed)
    where
      handed_over :
          (h : Handoff)
          → Goes (Seen seen) (elim h [
            | taken ↦ goes (record m { keys = []; handed = m.keys ∷ m.handed })
            | worker_failed n e ↦
                breaks e (record m { ocount = m.ocount + n; workers = m.workers - 1 })
            | context_done e ↦ breaks e m
          ])
      handed_over taken = g
      handed_over (worker_failed n e) = tt
      handed_over (context_done e) = tt

  -- Everything that was seen is merged.
  abbrev AllMerged : List Statement → Merging Db → Type 0
  AllMerged seen m = Runs merge_batch first seen m.count m.db × (m.stmts ≡ [])

  merge_stmts-Goes :
      (seen : List Statement) (m : Merging Db)
      → Seen seen m
      → Goes (AllMerged seen) (merge_stmts vr from_b58 handoff merge_batch m)
  unfolding merge_stmts merged
  merge_stmts-Goes seen m (done, runs, is) = ran (merge_batch m.stmts m.db) refl
    where
      ran :
          (r : Result ℕ × Db)
          → merge_batch m.stmts m.db ≡ r
          → Goes (AllMerged seen) (merged vr from_b58 handoff merge_batch r m)
      ran (ok n, db') e =
          (subst (λ l. Runs merge_batch first l (m.count + n) db') is (batch m.stmts runs e), refl)
      ran (err x, db') e = tt
      ran (panic, db') e = tt

  AllMerged-Seen :
      (seen : List Statement) (r : Round Db) → Goes (AllMerged seen) r → Goes (Seen seen) r
  AllMerged-Seen seen (goes m) (runs, e) = (seen, runs, ap (λ l. seen ++ l) e ∙ append-nil seen)
  AllMerged-Seen seen (breaks e m) g = tt
  AllMerged-Seen seen (crashes m) g = tt

  append_value-Goes :
      (seen : List Statement) (s : Statement) (m : Merging Db)
      → Seen seen m
      → Goes (Seen (seen ++ (s ∷ []))) (append_value vr from_b58 handoff merge_batch s m)
  unfolding append_value
  append_value-Goes seen s m (done, runs, is) =
      let m' : Merging Db = record m { stmts = m.stmts ++ (s ∷ []) } in
      let g : Seen (seen ++ (s ∷ [])) m' =
        (done, runs, sym (append_assoc done m.stmts (s ∷ [])) ∙ ap (λ l. l ++ (s ∷ [])) is) in
      if-Goes (Seen (seen ++ (s ∷ []))) (ltb (length (m.stmts ++ (s ∷ []))) 1024) (goes m')
        (merge_stmts vr from_b58 handoff merge_batch m') g
        (AllMerged-Seen (seen ++ (s ∷ [])) (merge_stmts vr from_b58 handoff merge_batch m')
          (merge_stmts-Goes (seen ++ (s ∷ [])) m' g))

  merge_value-Goes :
      (seen : List Statement) (s : Statement) (m : Merging Db)
      → Seen seen m
      → Goes (Seen (seen ++ (s ∷ []))) (merge_value vr from_b58 handoff merge_batch s m)
  unfolding merge_value hand_full
  merge_value-Goes seen s m g =
      on-Goes (Seen seen) (Seen (seen ++ (s ∷ []))) _ _
        (on-Goes (Seen seen) (Seen seen) _ _
          (on-Goes (Seen seen) (Seen seen) _ _ (check_value-Goes seen s m g)
            (gather_keys-Goes seen s))
          (λ m' g'.
            if-Goes (Seen seen) (ltb (length m'.keys) 1024) _ _ g' (hand_over-Goes seen m' g')))
        (append_value-Goes seen s)

  merge_values-Goes :
      (values : List StreamValue) (seen : List Statement) (r : Round Db)
      → Goes (Seen seen) r
      → Goes
          (Seen (seen ++ statements values))
          (merge_values vr from_b58 handoff merge_batch values r)
  unfolding merge_values
  merge_values-Goes values seen (breaks e m) g = tt
  merge_values-Goes values seen (crashes m) g = tt
  merge_values-Goes [] seen (goes m) (done, runs, is) = (done, runs, is ∙ sym (append-nil seen))
  merge_values-Goes (statement_value s ∷ rest) seen (goes m) g =
      subst
        (λ l.
          Goes (Seen l)
            (merge_values vr from_b58 handoff merge_batch (statement_value s ∷ rest) (goes m)))
        (append_assoc seen (s ∷ []) (statements rest))
        (merge_values-Goes rest (seen ++ (s ∷ [])) _
          (merge_value-Goes seen s (record m { received = m.received + 1 }) g))
  merge_values-Goes (failure e ∷ rest) seen (goes m) g = tt
  merge_values-Goes (string_value x ∷ rest) seen (goes m) g = tt
  merge_values-Goes (other_value ∷ rest) seen (goes m) g = tt

  merge_last-Goes :
      (seen : List Statement) (m : Merging Db)
      → Seen seen m
      → Goes (AllMerged seen) (merge_last vr from_b58 handoff merge_batch m)
  unfolding merge_last
  merge_last-Goes seen m g = elim (Bool-cases (ltb 0 (length m.stmts))) [
    | inl some_left ↦ rw some_left (merge_stmts-Goes seen m g)
    | inr none_left ↦ rw none_left (all_done (no_stmts m.stmts none_left) g)
  ]
    where
      no_stmts : (stmts : List Statement) → ltb 0 (length stmts) ≡ false → stmts ≡ []
      no_stmts [] e = refl
      no_stmts (s ∷ stmts) e = ground arith

      all_done : m.stmts ≡ [] → Seen seen m → AllMerged seen m
      all_done e (done, runs, is) = (
        subst (λ l. Runs merge_batch first l m.count m.db)
            (sym (append-nil done) ∙ ap (λ l. done ++ l) (sym e) ∙ is) runs,
        e,
      )

  -- A merge of a stream that does not fail has merged all of it: the database is the one that merges
  -- of batches leave, which all succeed and whose statements are, one after the other, those of the
  -- stream; the count is the sum of the counts of the batches, and no statement is left over.
  pub run_merge-Runs :
      (values : List StreamValue) (cpus : ℕ) (m : Merging Db)
      → run_merge vr from_b58 handoff merge_batch values cpus first ≡ goes m
      → Runs merge_batch first (statements values) m.count m.db × (m.stmts ≡ [])
  unfolding run_merge hand_last start
  run_merge-Runs values cpus m e = subst (Goes (AllMerged (statements values))) e (
      on-Goes (Seen (statements values)) (AllMerged (statements values)) _ _
        (on-Goes (Seen (statements values)) (Seen (statements values)) _ _
          (merge_values-Goes values [] (goes (start vr from_b58 handoff merge_batch cpus first))
            ([], begin, refl))
          (λ m' g.
            if-Goes (Seen (statements values)) (ltb 0 (length m'.keys)) _ _
              (hand_over-Goes (statements values) m' g) g))
        (merge_last-Goes (statements values)))
