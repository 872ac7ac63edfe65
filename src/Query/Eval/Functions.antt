-- ===== src/Query/Eval/Functions.antt =====
-- EvalQuery for COUNT, MIN and MAX.
use mathlib.Core.List.{Permᴰ}
use concat.Base.{
  take, subst, inl, ℕ, zero, suc, ◌≡◌, refl, ◌∙◌, ◌==◌, true, not, Text, text_eq, text_dec, codes,
  some, List, [], ◌∷◌, map, ok, panic, ◌>>=◌, >>=_assoc, arith, length, keep, All, dedup, contains,
  In, All-dedup, dedup-In, ap,
}
use concat.Base.Int.{ℤ, pos, int_eq, ◌≤ℤ◌}
use concat.Base.Dict.{lookup}
use concat.Query.{Query, QuerySelector, FunctionSelector}
use concat.Query.Statement.{Statement, header}
use concat.Query.Statement.Refs.{HasBodies}
use concat.Query.Selector.{
  Scalar, int, int64, scalar_eq, FunctionStatementSelector, function_selectors,
  count_function_selector, min_function_selector, max_function_selector, check_function_selector,
}
use concat.Query.Selector.Extremes.{timestamps, min_max_function_selector}
use concat.Query.Filter.Namespace.{Pattern}
use concat.Query.ResultSet.{
  scalar, function, finish, begin, result, make_result_set, make_function_result_set,
}
use concat.Query.ResultSet.Simple.{collect-eq-cut}
use concat.Query.ResultSet.Order.{IsOrder, length-perm, timestamps-perm, All-among, single-perm}
use concat.Query.Eval.{eval_query}
use concat.Query.Eval.Selected.{selected, selector_names, find_selector}
use concat.Query.Eval.Loop.{keep-HasBodies, add_all-function}
use concat.Query.Eval.Denotation.{IsWellFormed, asks, distinct, eval_query-add_all}

module _ (order : List Scalar → List Scalar) (q : Query) (pat : Pattern) (wf : IsWellFormed q pat)
    (sel : FunctionSelector) (ss : List Statement) where
  -- The function is applied to what the simple selector would yield, limit included.
  eval_query-function :
      (fun : FunctionStatementSelector)
      → q.selector ≡ some (QuerySelector.function sel)
      → check_function_selector sel ≡ true
      → lookup function_selectors sel.op ≡ some fun
      → contains selector_names sel.sel ≡ true
      → All HasBodies ss
      → eval_query order q ss
        ≡ (fun (order (distinct sel.sel q.limit (keep (asks q pat) ss))) >>= λ r. ok (map scalar r))
  unfolding make_result_set begin finish result
  eval_query-function fun e allowed found c h =
      let (getf, found', reads) = find_selector sel.sel c in
      let kept = keep-HasBodies (asks q pat) ss h in
      rw
        (eval_query-add_all q pat wf order (function (make_function_result_set fun getf q.limit)) ss
          (rw (e, allowed, found, found')) h)
        (rw
          (add_all-function (selected sel.sel) getf reads fun [] q.limit (keep (asks q pat) ss)
            kept)
          (rw collect-eq-cut
            (>>=_assoc (fun (order (distinct sel.sel q.limit (keep (asks q pat) ss)))) _ _)))

-- The timestamps of statements.
abbrev pub times : List Statement → List ℤ
times = map (λ s. (header s).timestamp)

-- Distinct timestamps, as values and as numbers.
module _ (t : ℤ) where
  keep-timestamps :
      (ts : List ℤ)
      → keep (λ v. not (v == int64 t)) (timestamps ts) ≡ timestamps (keep (λ u. not (u == t)) ts)
  keep-timestamps [] = refl
  keep-timestamps (u ∷ ts) = ground (arith, keep-timestamps ts)

dedup-times :
    (ss : List Statement)
    → dedup (map (selected (codes "timestamp")) ss) ≡ timestamps (dedup (times ss))
unfolding selected text_dec
dedup-times [] = refl
dedup-times (s ∷ ss) = rw (dedup-times ss, keep-timestamps (header s).timestamp (dedup (times ss)))

-- COUNT of a selector is the number of its distinct values, no more than the limit, in whatever order
-- `range` goes through them.
pub eval_query-count :
    (order : List Scalar → List Scalar) (q : Query) (pat : Pattern) (sel : Text)
    (ss : List Statement)
    → IsOrder order
    → IsWellFormed q pat
    → q.selector ≡ some (QuerySelector.function (record { op = codes "COUNT"; sel = sel }))
    → contains selector_names sel ≡ true
    → All HasBodies ss
    → eval_query order q ss
      ≡ ok (scalar (int (pos (length (distinct sel q.limit (keep (asks q pat) ss))))) ∷ [])
unfolding count_function_selector check_function_selector text_dec lookup
eval_query-count order q pat sel ss o wf e c h =
    let as_many = length-perm (o (distinct sel q.limit (keep (asks q pat) ss))) in
    eval_query-function order q pat wf _ ss count_function_selector e c refl c h
    ∙ ap (λ n. ok (scalar (int (pos n)) ∷ [])) as_many

-- The only value of the counter column is the `int` 0.
no_other_counter :
    (ss : List Statement)
    → keep (λ v. not (v == int (pos 0))) (dedup (map (selected (codes "counter")) ss)) ≡ []
unfolding selected text_dec
no_other_counter [] = refl
no_other_counter (s ∷ ss) = rw (no_other_counter ss) (ground arith)

counter_only :
    (n : ℕ) (ss : List Statement) (s : Statement)
    → In s ss
    → distinct (codes "counter") (pos n) ss ≡ int (pos 0) ∷ []
unfolding selected text_dec
counter_only n [] u i = absurd i
counter_only zero (s ∷ ss) u i = ap (λ l. int (pos 0) ∷ l) (no_other_counter ss)
counter_only (suc n) (s ∷ ss) u i =
    ap (λ l. take (suc n) (int (pos 0) ∷ l)) (no_other_counter ss) ∙ rest n
  where
    rest : (n : ℕ) → take {A = Scalar} (suc n) (int (pos 0) ∷ []) ≡ int (pos 0) ∷ []
    rest zero = refl
    rest (suc n) = refl

-- MIN and MAX of a counter panic as soon as one statement is asked for and the limit is not
-- negative, in whatever order `range` goes through the values.
pub eval_query-counter_panics :
    (order : List Scalar → List Scalar) (q : Query) (pat : Pattern) (op : Text)
    (ss : List Statement) (n : ℕ) (s : Statement)
    → IsOrder order
    → IsWellFormed q pat
    → q.selector ≡ some (QuerySelector.function (record { op = op; sel = codes "counter" }))
    → contains (codes "MIN" ∷ codes "MAX" ∷ []) op ≡ true
    → q.limit ≡ pos n
    → All HasBodies ss
    → In s (keep (asks q pat) ss)
    → eval_query order q ss ≡ panic
unfolding min_function_selector max_function_selector check_function_selector text_dec lookup
eval_query-counter_panics order q pat op ss n s o wf e c l h i =
    let starts : order (distinct (codes "counter") (pos n) (keep (asks q pat) ss))
        ≡ int (pos 0) ∷ [] =
      single-perm _ _ (
        subst (Permᴰ (order (distinct (codes "counter") (pos n) (keep (asks q pat) ss))))
          (counter_only n (keep (asks q pat) ss) s i)
          (o (distinct (codes "counter") (pos n) (keep (asks q pat) ss)))) in
    elim (text_dec op (codes "MIN")) [
      | yes p ↦
          eval_query-function order q pat wf _ ss min_function_selector e (rw p) (rw p) refl h
          ∙ rw (l, starts)
      | no n' ↦
          let p : op ≡ codes "MAX" = ground arith in
          eval_query-function order q pat wf _ ss max_function_selector e (rw p) (rw p) refl h
          ∙ rw (l, starts)
    ]

extremes_of :
    (order : List Scalar → List Scalar) (ms : List Statement) (s : Statement)
    → IsOrder order
    → In s ms
    → (lo hi : ℤ) × (min_function_selector (order (distinct (codes "timestamp") (pos 0) ms))
        ≡ ok (int64 lo ∷ []))
      × (max_function_selector (order (distinct (codes "timestamp") (pos 0) ms))
          ≡ ok (int64 hi ∷ []))
      × In lo (times ms)
      × In hi (times ms)
      × All (λ t. lo ≤ℤ t) (times ms)
      × All (λ t. t ≤ℤ hi) (times ms)
extremes_of order [] s o i = absurd i
extremes_of order (m ∷ ms) s o i =
    let us = dedup (times (m ∷ ms)) in
    let moved : Permᴰ (order (dedup (map (selected (codes "timestamp")) (m ∷ ms))))
        (timestamps us) =
      subst (Permᴰ (order (dedup (map (selected (codes "timestamp")) (m ∷ ms)))))
        (dedup-times (m ∷ ms)) (o (dedup (map (selected (codes "timestamp")) (m ∷ ms)))) in
    let (ts, same, as_many, among, all) = timestamps-perm _ us moved in
    found ts same (all (header m).timestamp (inl refl)) among all
  where
    found :
        (ts : List ℤ)
        → order (dedup (map (selected (codes "timestamp")) (m ∷ ms))) ≡ timestamps ts
        → In (header m).timestamp ts
        → ((t : ℤ) → In t ts → In t (dedup (times (m ∷ ms))))
        → ((t : ℤ) → In t (dedup (times (m ∷ ms))) → In t ts)
        → (lo hi : ℤ) × (min_function_selector
              (order (dedup (map (selected (codes "timestamp")) (m ∷ ms))))
            ≡ ok (int64 lo ∷ []))
          × (max_function_selector (order (dedup (map (selected (codes "timestamp")) (m ∷ ms))))
              ≡ ok (int64 hi ∷ []))
          × In lo (times (m ∷ ms))
          × In hi (times (m ∷ ms))
          × All (λ t. lo ≤ℤ t) (times (m ∷ ms))
          × All (λ t. t ≤ℤ hi) (times (m ∷ ms))
    found [] same there among all = absurd there
    found (t ∷ ts) same there among all =
        let (lo, hi, min_done, max_done, lo_in, hi_in, lows, highs) =
          min_max_function_selector t ts in
        (
          lo,
          hi,
          ap min_function_selector same ∙ min_done,
          ap max_function_selector same ∙ max_done,
          dedup-In lo (times (m ∷ ms)) (among lo lo_in),
          dedup-In hi (times (m ∷ ms)) (among hi hi_in),
          All-dedup (λ u. lo ≤ℤ u) (times (m ∷ ms))
              (All-among (λ u. lo ≤ℤ u) (t ∷ ts) (dedup (times (m ∷ ms))) all lows),
          All-dedup (λ u. u ≤ℤ hi) (times (m ∷ ms))
              (All-among (λ u. u ≤ℤ hi) (t ∷ ts) (dedup (times (m ∷ ms))) all highs),
        )

-- MIN and MAX of the timestamp, over at least one statement that is asked for and with no limit,
-- are timestamps of such statements, and no such statement is earlier, or later. The order in which
-- `range` goes through the values does not matter.
pub eval_query-min_max :
    (order : List Scalar → List Scalar) (q : Query) (pat : Pattern) (ss : List Statement)
    (s : Statement)
    → IsOrder order
    → IsWellFormed q pat
    → q.limit ≡ pos 0
    → All HasBodies ss
    → In s (keep (asks q pat) ss)
    → (lo hi : ℤ) × (q.selector
          ≡ some (QuerySelector.function (record { op = codes "MIN"; sel = codes "timestamp" }))
        → eval_query order q ss ≡ ok (scalar (int64 lo) ∷ []))
      × (q.selector
            ≡ some (QuerySelector.function (record { op = codes "MAX"; sel = codes "timestamp" }))
          → eval_query order q ss ≡ ok (scalar (int64 hi) ∷ []))
      × In lo (times (keep (asks q pat) ss))
      × In hi (times (keep (asks q pat) ss))
      × All (λ t. lo ≤ℤ t) (times (keep (asks q pat) ss))
      × All (λ t. t ≤ℤ hi) (times (keep (asks q pat) ss))
unfolding check_function_selector text_dec lookup
eval_query-min_max order q pat ss s o wf l h i =
    let (lo, hi, min_done, max_done, lo_in, hi_in, lows, highs) =
      extremes_of order (keep (asks q pat) ss) s o i in
    (
      lo,
      hi,
      λ e.
          eval_query-function order q pat wf _ ss min_function_selector e refl refl refl h
          ∙ rw (l, min_done),
      λ e.
          eval_query-function order q pat wf _ ss max_function_selector e refl refl refl h
          ∙ rw (l, max_done),
      lo_in,
      hi_in,
      lows,
      highs,
    )
