-- ===== src/Query/Compile/Kind/Reads.antt =====
-- What the queries of each kind read.
use concat.Base.{
  ◌≡◌, refl, Bool, true, false, ◌||◌, Text, text_eq, text_dec, codes, Option, none, some, [], ◌∷◌,
  ◌++◌, not, Result, ok, err, panic, ◌>>=◌, arith, if◌then◌else◌,
}
use concat.Base.Dict.{Dict, lookup, put}
use concat.Query.{Query, QueryCriteria}
use concat.Query.Statement.{Statement, header}
use concat.Query.Filter.{
  StatementFilter, empty_filter, entry_or, compound_criteria_filters, make_criteria_filter,
  make_criteria_filter_f, make_namespace_filter,
}
use concat.Query.Filter.Algebra.{run_criteria}
use concat.Query.Filter.Meaning.{valid}
use concat.Query.Eval.{passes}
use concat.Query.Compile.Kind.{
  is_statement_query, no_other_criteria, is_statement_criteria, is_index_criteria,
  collect_index_criteria_tables, index_criteria_tables,
}

-- Whether EvalQuery keeps a statement.
abbrev pub keeps : Query → Statement → Result Bool
keeps q stmt = do
  nsfilter ← make_namespace_filter q
  cfilter ← make_criteria_filter q
  passes nsfilter cfilter stmt

abbrev Combinator : Type 0
Combinator = Statement → StatementFilter → StatementFilter → Result Bool

abbrev combined :
    Result Combinator → Result StatementFilter → Result StatementFilter → Result StatementFilter
combined m ml mr = do f ← m; l ← ml; r ← mr; ok (λ stmt. f stmt l r)

abbrev flipped : Result StatementFilter → Result StatementFilter
flipped m = do f ← m; ok (λ stmt. f stmt >>= λ b. ok (not b))

module _ (s t : Statement) where
  -- A combinator asks a statement nothing but what its filters answer.
  abbrev Defers : Combinator → Type 0
  Defers f = (fl fr : StatementFilter) → fl s ≡ fl t → fr s ≡ fr t → f s fl fr ≡ f t fl fr

  entry_or-Defers :
      (op : Text) (f : Combinator)
      → entry_or
          (lookup compound_criteria_filters op)
          (codes "Unexpected criteria combinator: " ++ op)
        ≡ ok f
      → Defers f
  unfolding lookup text_dec
  entry_or-Defers op f found fl fr el er = ground arith

  combine_agree :
      (m : Result Combinator) (ml mr : Result StatementFilter)
      → ((f : Combinator) → m ≡ ok f → Defers f)
      → (ml >>= λ f. f s) ≡ (ml >>= λ f. f t)
      → (mr >>= λ f. f s) ≡ (mr >>= λ f. f t)
      → (combined m ml mr >>= λ f. f s) ≡ (combined m ml mr >>= λ f. f t)
  combine_agree (ok f) (ok l) (ok r) d el er = d f refl l r el er
  combine_agree (ok f) (ok l) (err e) d el er = refl
  combine_agree (ok f) (ok l) panic d el er = refl
  combine_agree (ok f) (err e) mr d el er = refl
  combine_agree (ok f) panic mr d el er = refl
  combine_agree (err e) ml mr d el er = refl
  combine_agree panic ml mr d el er = refl

run_criteria_by_id :
    (c : QueryCriteria) (s t : Statement)
    → is_statement_criteria c ≡ true
    → (header s).id ≡ (header t).id
    → run_criteria c s ≡ run_criteria c t
unfolding is_statement_criteria make_criteria_filter_f text_dec lookup
run_criteria_by_id (QueryCriteria.value op sel val) s t p e =
    let is_id : sel ≡ codes "id" = ground arith in rw is_id (ground (arith, e))
run_criteria_by_id (QueryCriteria.compound op l r) s t p e =
    combine_agree s t
      (entry_or (lookup compound_criteria_filters op)
        (codes "Unexpected criteria combinator: " ++ op))
      (make_criteria_filter_f l) (make_criteria_filter_f r) (entry_or-Defers s t op)
      (run_criteria_by_id l s t (ground arith) e) (run_criteria_by_id r s t (ground arith) e)
run_criteria_by_id (QueryCriteria.negated c) s t p e =
    negate_agree (make_criteria_filter_f c) s t (run_criteria_by_id c s t p e)
  where
    negate_agree :
        (m : Result StatementFilter) (s t : Statement)
        → (m >>= λ f. f s) ≡ (m >>= λ f. f t)
        → (flipped m >>= λ f. f s) ≡ (flipped m >>= λ f. f t)
    negate_agree (ok f) s t e = rw e
    negate_agree (err x) s t e = refl
    negate_agree panic s t e = refl
run_criteria_by_id (QueryCriteria.range op sel val) s t p e = ground arith
run_criteria_by_id (QueryCriteria.index sel val) s t p e = ground arith

-- A query that is compiled to a read of the table Statement alone, which has no column but the id
-- and the data, is one whose filters tell two statements apart by their id only, errors included.
pub is_statement_query-keeps :
    (q : Query) (s t : Statement)
    → is_statement_query q ≡ true
    → (header s).id ≡ (header t).id
    → keeps q s ≡ keeps q t
unfolding is_statement_query make_namespace_filter make_criteria_filter passes text_dec
is_statement_query-keeps q s t p e =
    let all : q.namespace ≡ codes "*" = ground arith in
    rw all (keeps_criteria q.criteria (ground arith))
  where
    filter_of : Option QueryCriteria → Result StatementFilter
    filter_of none = ok empty_filter
    filter_of (some c) = make_criteria_filter_f c

    keeps_criteria :
        (c : Option QueryCriteria)
        → no_other_criteria c ≡ true
        → (filter_of c >>= λ f. f s) ≡ (filter_of c >>= λ f. f t)
    keeps_criteria none p = refl
    keeps_criteria (some c) p = run_criteria_by_id c s t p e

abbrev refs_table : Bool → Dict Text Text
refs_table b = if b then (codes "wki", codes "Refs") ∷ [] else []

collect_index_criteria_tables-refs_table :
    (c : QueryCriteria) (b : Bool)
    → valid c ≡ true
    → collect_index_criteria_tables (refs_table b) c ≡ ok (refs_table (b || is_index_criteria c))
unfolding collect_index_criteria_tables is_index_criteria valid put lookup text_dec
collect_index_criteria_tables-refs_table (QueryCriteria.value op sel val) b v = ground arith
collect_index_criteria_tables-refs_table (QueryCriteria.range op sel val) b v = ground arith
collect_index_criteria_tables-refs_table (QueryCriteria.index sel val) b v =
    let wki : sel ≡ codes "wki" = ground arith in rw wki (ground arith)
collect_index_criteria_tables-refs_table (QueryCriteria.compound op l r) b v =
    let el = collect_index_criteria_tables-refs_table l b (ground arith) in
    let er = collect_index_criteria_tables-refs_table r (b || is_index_criteria l) (ground arith) in
    rw (el, er) (ground arith)
collect_index_criteria_tables-refs_table (QueryCriteria.negated c) b v =
    collect_index_criteria_tables-refs_table c b v

-- The tables of the criteria of the language: the table of references where there is an index
-- criteria anywhere in it, and none elsewhere.
pub index_criteria_tables-is_index_criteria :
    (c : QueryCriteria)
    → valid c ≡ true
    → index_criteria_tables c
      ≡ ok (if is_index_criteria c then (codes "wki", codes "Refs") ∷ [] else [])
unfolding index_criteria_tables
index_criteria_tables-is_index_criteria c v = collect_index_criteria_tables-refs_table c false v
