-- ===== src/Query/Eval/Compound.antt =====
-- EvalQuery for compound selectors.
use concat.Base.{◌≡◌, refl, true, Text, text_eq, some, List, [], ◌∷◌, map, ok, keep, All, contains}
use concat.Base.Dict.{Dict, put}
use concat.Query.{Query, QuerySelector}
use concat.Query.Statement.{Statement}
use concat.Query.Statement.Refs.{HasBodies}
use concat.Query.Selector.{Scalar, StatementSelector}
use concat.Query.Filter.Namespace.{Pattern}
use concat.Query.ResultSet.{
  object, compound, finish, begin, result, make_result_set, make_compound_result_set,
  make_compound_statement_selector, select_fields, find_selectors,
}
use concat.Query.Eval.{eval_query}
use concat.Query.Eval.Selected.{selected, selector_names, find_selector}
use concat.Query.Eval.Loop.{keep-HasBodies, add_all-compound}
use concat.Query.Eval.Denotation.{IsWellFormed, asks, eval_query-add_all}

-- The object with a field for each selector.
unfoldable pub fields : List Text → Statement → Dict Text Scalar → Dict Text Scalar
fields [] s val = val
fields (sel ∷ sels) s val = fields sels s (put val sel (selected sel s))

abbrev pub AllSelectors : List Text → Type 0
AllSelectors = All (λ sel. contains selector_names sel ≡ true)

find_selectors-fields :
    (sels : List Text)
    → AllSelectors sels
    → (getfs : List (Text × StatementSelector)) × (find_selectors sels ≡ ok getfs)
      × ((s : Statement) (val : Dict Text Scalar)
          → HasBodies s
          → select_fields getfs s val ≡ ok (fields sels s val))
unfolding find_selectors select_fields fields
find_selectors-fields [] v = ([], refl, λ s val h. refl)
find_selectors-fields (sel ∷ sels) (known, v) =
    let (getf, found, reads) = find_selector sel known in
    let (getfs, done, rest) = find_selectors-fields sels v in
    (
      (sel, getf) ∷ getfs,
      rw (found, done),
      λ s val h. rw (reads s h) (rest s (put val sel (selected sel s)) h),
    )

-- A compound selector yields one object for each statement that the query asks for, with a field
-- for each of its selectors, in the order of the statements. Equal objects are kept apart, and the
-- limit of the query does not matter.
pub eval_query-compound :
    (order : List Scalar → List Scalar) (q : Query) (pat : Pattern) (sels : List Text)
    (ss : List Statement)
    → IsWellFormed q pat
    → q.selector ≡ some (QuerySelector.compound sels)
    → AllSelectors sels
    → All HasBodies ss
    → eval_query order q ss ≡ ok (map (λ s. object (fields sels s [])) (keep (asks q pat) ss))
unfolding make_result_set begin finish result make_compound_result_set
eval_query-compound order q pat sels ss wf e c h =
    let (getfs, found, reads) = find_selectors-fields sels c in
    let kept = keep-HasBodies (asks q pat) ss h in
    let getf = make_compound_statement_selector getfs in
    rw
      (eval_query-add_all q pat wf order (compound (make_compound_result_set getfs q.limit)) ss
        (rw (e, found)) h)
      (rw
        (add_all-compound (λ s. object (fields sels s [])) getf (λ s w. rw (reads s [] w)) []
          q.limit (keep (asks q pat) ss) kept)
        refl)
