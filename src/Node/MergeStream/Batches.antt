-- ===== src/Node/MergeStream/Batches.antt =====
-- What a merge of a stream puts into the database.
use concat.Base.{
  ℕ, ◌+◌, refl, inl, inr, arith, Text, text_eq, List, [], ◌∷◌, Result, length, ltb, All, All-weaken,
  In,
}
use concat.Base.Dict.{Dict, lookup}
use concat.Query.Statement.{Statement}
use concat.Node.Statements.{Verifier}
use concat.Node.Database.{StreamValue, statement_value, string_value, failure, other_value}
use concat.Node.MergeStream.{
  Handoff, Round, goes, breaks, crashes, on, hand_over, merge_stmts, merge_values, hand_last,
  merge_last, start, run_merge,
}
use concat.Node.MergeStream.Rounds.{
  state, statements, Batches, stay, more, Accepted, Inv, Ended, Plain, on-Ended, hand_over-Ended,
  if-Ended, merge_stmts-Ended, merge_value-Ended,
}

module _ {Db : Type 0} (vr : Verifier) (from_b58 : Text → Result Text)
    (handoff : List (Dict Text Text) → Handoff) (merge_batch : List Statement → Db → Result ℕ × Db)
    (From : Statement → Type 0) (first : Db) where
  -- A round whose end has the invariant.
  abbrev Going : Round Db → Type 0
  Going r =
      Ended vr from_b58 handoff merge_batch From first
        (Plain vr from_b58 handoff merge_batch From first) r

  merge_values-Ended :
      (values : List StreamValue) (r : Round Db)
      → All From (statements values)
      → Going r
      → Going (merge_values vr from_b58 handoff merge_batch values r)
  unfolding merge_values
  merge_values-Ended values (breaks e m) from i = i
  merge_values-Ended values (crashes m) from i = i
  merge_values-Ended [] (goes m) from i = i
  merge_values-Ended (statement_value s ∷ rest) (goes m) (f, from) (i, _) =
      merge_values-Ended rest _ from (
        merge_value-Ended vr from_b58 handoff merge_batch From first s
          (record m { received = m.received + 1 }) f
          (record { cache = i.cache; pending = i.pending; merged_so_far = i.merged_so_far }))
  merge_values-Ended (failure e ∷ rest) (goes m) from (i, _) = record {
    cache = i.cache;
    pending = i.pending;
    merged_so_far = i.merged_so_far;
  }
  merge_values-Ended (string_value s ∷ rest) (goes m) from (i, _) = record {
    cache = i.cache;
    pending = i.pending;
    merged_so_far = i.merged_so_far;
  }
  merge_values-Ended (other_value ∷ rest) (goes m) from (i, _) = record {
    cache = i.cache;
    pending = i.pending;
    merged_so_far = i.merged_so_far;
  }

  Ended-Inv : (r : Round Db) → Going r → Inv vr from_b58 handoff merge_batch From first (state r)
  Ended-Inv (goes m) (i, _) = i
  Ended-Inv (breaks e m) i = i
  Ended-Inv (crashes m) i = i

  run_merge-Inv :
      (values : List StreamValue) (cpus : ℕ)
      → All From (statements values)
      → Inv vr from_b58 handoff merge_batch From first
          (state (run_merge vr from_b58 handoff merge_batch values cpus first))
  unfolding run_merge hand_last merge_last start lookup
  run_merge-Inv values cpus from =
      let begin : Round Db = goes (start vr from_b58 handoff merge_batch cpus first) in
      let begun : Going begin =
        (record { cache = λ k v e. ground arith; pending = tt; merged_so_far = stay }, tt) in
      let merging = merge_values-Ended values begin from begun in
      let handed =
        on-Ended vr from_b58 handoff merge_batch From first
          (Plain vr from_b58 handoff merge_batch From first)
          (Plain vr from_b58 handoff merge_batch From first)
          (merge_values vr from_b58 handoff merge_batch values begin)
          (hand_last vr from_b58 handoff merge_batch) merging
          (λ m i u.
            if-Ended vr from_b58 handoff merge_batch From first
              (Plain vr from_b58 handoff merge_batch From first) (ltb 0 (length m.keys))
              (hand_over vr from_b58 handoff merge_batch m) (goes m)
              (hand_over-Ended vr from_b58 handoff merge_batch From first (Unit {0}) m i tt)
              (i, tt)) in
      Ended-Inv (run_merge vr from_b58 handoff merge_batch values cpus first) (
        on-Ended vr from_b58 handoff merge_batch From first
          (Plain vr from_b58 handoff merge_batch From first)
          (Plain vr from_b58 handoff merge_batch From first)
          (on vr from_b58 handoff merge_batch
            (merge_values vr from_b58 handoff merge_batch values begin)
            (hand_last vr from_b58 handoff merge_batch))
          (merge_last vr from_b58 handoff merge_batch) handed
          (λ m i u.
            if-Ended vr from_b58 handoff merge_batch From first
              (Plain vr from_b58 handoff merge_batch From first) (ltb 0 (length m.stmts))
              (merge_stmts vr from_b58 handoff merge_batch m) (goes m)
              (merge_stmts-Ended vr from_b58 handoff merge_batch From first m i) (i, tt)))

All-In-self : (ss : List Statement) → All (λ s. In s ss) ss
All-In-self [] = tt
All-In-self (s ∷ ss) = (inl refl, All-weaken (λ x h. inr h) ss (All-In-self ss))

module _ {Db : Type 0} (vr : Verifier) (from_b58 : Text → Result Text)
    (handoff : List (Dict Text Text) → Handoff)
    (merge_batch : List Statement → Db → Result ℕ × Db) where
  -- However a merge of a stream ends, the database is the one that merges of batches leave, one after
  -- the other, and every statement of every batch is a statement of the stream that passes the check
  -- and whose signature verifies under its publisher's key, without the cache of keys.
  pub run_merge-Batches :
      (values : List StreamValue) (cpus : ℕ) (first : Db)
      → Batches merge_batch
          (λ s. Accepted vr s × In s (statements values))
          first
          (state (run_merge vr from_b58 handoff merge_batch values cpus first)).db
  run_merge-Batches values cpus first =
      (run_merge-Inv vr from_b58 handoff merge_batch (λ s. In s (statements values)) first values
        cpus (All-In-self (statements values))).merged_so_far

pub Batches-weaken :
    {Db : Type 0} (merge_batch : List Statement → Db → Result ℕ × Db) (P Q : Statement → Type 0)
    → ((s : Statement) → P s → Q s)
    → (first last : Db) → Batches merge_batch P first last
    → Batches merge_batch Q first last
Batches-weaken merge_batch P Q f first last stay = stay
Batches-weaken merge_batch P Q f first last (more {db = db} stmts before a e) =
    more stmts (Batches-weaken merge_batch P Q f first db before) (All-weaken f stmts a) e
