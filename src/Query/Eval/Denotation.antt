-- ===== src/Query/Eval/Denotation.antt =====
-- EvalQuery against a direct reading of the query.
use mathlib.Core.List.{Permᴰ}
use concat.Base.{
  ◌≡◌, refl, Bool, true, ◌&&◌, Text, text_eq, Option, none, some, List, [], map, ok, ◌>>=◌,
  >>=-eq-ok, arith, keep, All, dedup, contains,
}
use concat.Base.Int.{ℤ, pos}
use concat.Query.{Query, QuerySelector, QueryCriteria}
use concat.Query.Statement.{Statement, statement, empty}
use concat.Query.Statement.Refs.{HasBodies}
use concat.Query.Selector.{Scalar, scalar_eq}
use concat.Query.Filter.{
  StatementFilter, empty_filter, make_criteria_filter, make_criteria_filter_f,
  make_namespace_filter,
}
use concat.Query.Filter.Meaning.{valid, filters_in, run_criteria-filters_in}
use concat.Query.Filter.Namespace.{
  Pattern, pattern_text, IsPattern, matches_pattern, run_namespace-matches_pattern,
}
use concat.Query.ResultSet.{scalar, QueryResultSet, simple, finish, begin, result, make_result_set}
use concat.Query.ResultSet.Simple.{cut, collect-eq-cut}
use concat.Query.ResultSet.Order.{IsOrder}
use concat.Query.Eval.{passes, eval_query}
use concat.Query.Eval.Selected.{selected, selector_names, find_selector}
use concat.Query.Eval.Loop.{gathering, add_all, eval_loop-add_all, keep-HasBodies, add_all-simple}

abbrev pub valid_criteria : Option QueryCriteria → Bool
valid_criteria none = true
valid_criteria (some c) = valid c

abbrev pub filters_in_criteria : Option QueryCriteria → Statement → Bool
filters_in_criteria none s = true
filters_in_criteria (some c) s = filters_in c s

-- A query of the language: its namespace has one of the three forms, and its criteria is valid.
pub record IsWellFormed (q : Query) (pat : Pattern) : Type 0 where
  pub pattern_valid : IsPattern pat
  pub namespace_text : q.namespace ≡ pattern_text pat
  pub criteria_valid : valid_criteria q.criteria ≡ true

-- Whether a statement is asked for, its source being read as its publisher.
abbrev pub asks : Query → Pattern → Statement → Bool
asks q pat s = matches_pattern pat s && filters_in_criteria q.criteria s

-- The first distinct values of a selector, up to the limit.
abbrev pub distinct : Text → ℤ → List Statement → List Scalar
distinct sel limit ss = cut limit (dedup (map (selected sel) ss))

-- A statement to read a filter off at.
abbrev blank : Statement
blank =
    statement
      (record {
        addr = 0;
        body_addr = 0;
        id = [];
        publisher = [];
        namespace = [];
        timestamp = pos 0;
        signature = none;
      })
      empty

made_criteria :
    (q : Query)
    → valid_criteria q.criteria ≡ true
    → (cf : StatementFilter) × (make_criteria_filter q ≡ ok cf)
      × ((s : Statement) → HasBodies s → cf s ≡ ok (filters_in_criteria q.criteria s))
unfolding make_criteria_filter
made_criteria q v = made q.criteria v
  where
    made :
        (c : Option QueryCriteria)
        → valid_criteria c ≡ true
        → (cf : StatementFilter) × ((elim c [
          | none ↦ ok empty_filter
          | some d ↦ make_criteria_filter_f d
        ])
            ≡ ok cf)
          × ((s : Statement) → HasBodies s → cf s ≡ ok (filters_in_criteria c s))
    made none v = (empty_filter, refl, λ s h. refl)
    made (some c) v =
        let (cf, e, _) =
          >>=-eq-ok (make_criteria_filter_f c) _ (run_criteria-filters_in c blank v tt) in
        (cf, e, λ s h. rw e at (run_criteria-filters_in c s v h))

module _ (q : Query) (pat : Pattern) (wf : IsWellFormed q pat) where
  filters :
      (nf : StatementFilter) × (cf : StatementFilter) × (make_namespace_filter q ≡ ok nf)
      × (make_criteria_filter q ≡ ok cf)
      × ((s : Statement) → HasBodies s → passes nf cf s ≡ ok (asks q pat s))
  unfolding passes
  filters =
      let (nf, e, _) =
        >>=-eq-ok (make_namespace_filter q) _
          (run_namespace-matches_pattern q pat blank wf.pattern_valid wf.namespace_text) in
      let (cf, e', answers) = made_criteria q wf.criteria_valid in
      (
        nf,
        cf,
        e,
        e',
        λ s h.
            let n : nf s ≡ ok (matches_pattern pat s) =
              rw e at (run_namespace-matches_pattern q pat s wf.pattern_valid wf.namespace_text) in
            rw n (ground (arith, answers s h)),
      )

  -- A query is its result set, fed with the statements that it asks for.
  pub eval_query-add_all :
      (order : List Scalar → List Scalar) (rs : QueryResultSet) (ss : List Statement)
      → make_result_set q ≡ ok rs
      → All HasBodies ss
      → eval_query order q ss ≡ (
          add_all (begin rs) (keep (asks q pat) ss) >>= λ rs'.
          finish order rs' >>= λ rs''. ok (result rs''))
  unfolding eval_query
  eval_query-add_all order rs ss e h =
      let (nf, cf, en, ec, answers) = filters in
      rw (en, ec, e, eval_loop-add_all nf cf (asks q pat) answers (begin rs) ss h)

  -- A simple selector of the language yields the first distinct values of the selector among the
  -- statements that the query asks for, as many as the limit admits, each of them once, in an order
  -- that is left open: that in which `range` goes through a map, whatever it is. No statement inside
  -- has a nil body.
  pub eval_query-simple :
      (order : List Scalar → List Scalar) (sel : Text) (ss : List Statement)
      → IsOrder order
      → q.selector ≡ some (QuerySelector.simple sel)
      → contains selector_names sel ≡ true
      → All HasBodies ss
      → (vs : List Scalar) × (eval_query order q ss ≡ ok (map scalar vs))
        × Permᴰ vs (distinct sel q.limit (keep (asks q pat) ss))
  unfolding make_result_set begin finish result
  eval_query-simple order sel ss o e c h =
      let (getf, found, reads) = find_selector sel c in
      let kept = keep-HasBodies (asks q pat) ss h in
      (
        order (distinct sel q.limit (keep (asks q pat) ss)),
        rw (eval_query-add_all order (simple (gathering getf [] q.limit)) ss (rw (e, found)) h) (
            rw (add_all-simple (selected sel) getf reads [] q.limit (keep (asks q pat) ss) kept)
              (rw collect-eq-cut)),
        o (distinct sel q.limit (keep (asks q pat) ss)),
      )
