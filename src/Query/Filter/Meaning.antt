-- ===== src/Query/Filter/Meaning.antt =====
-- What the criteria filters decide, against a direct reading of the criteria.
use mathlib.Core.Bool.{beq}
use concat.Base.{
  false, inl, inr, ◌⊎◌, ap, ◌∙◌, ◌≡◌, refl, Bool, true, not, ◌&&◌, ◌||◌, Text, text_eq, text_dec,
  codes, List, [], ◌∷◌, ◌==◌, Result, ok, >>=-eq-ok, arith, contains, if◌then◌else◌,
}
use concat.Base.Int.{ℤ, pos, negsuc, int_eq, ltb_ℤ}
use concat.Base.Dict.{lookup-Entries, Entries}
use concat.Query.{QueryCriteria}
use concat.Query.Statement.{Statement, header, statement_refs}
use concat.Query.Statement.Refs.{refers, HasBodies, statement_refs-refers}
use concat.Query.Statement.Source.{source_of}
use concat.Query.Filter.{
  StatementFilter, value_criteria_filter_select, value_criteria_filter_compare,
  range_criteria_filter_select, range_criteria_filter_compare, index_criteria_filter_select,
  compound_criteria_filters, index_criteria_contains, make_criteria_filter_f,
}
use concat.Query.Filter.Algebra.{run_criteria}

-- The selectors and operators that the query language has, at every node of a criteria.
unfoldable pub valid : QueryCriteria → Bool
valid (QueryCriteria.value op sel val) =
    contains (codes "id" ∷ codes "publisher" ∷ codes "source" ∷ []) sel
    && contains (codes "=" ∷ codes "!=" ∷ []) op
valid (QueryCriteria.range op sel val) =
    contains (codes "timestamp" ∷ codes "counter" ∷ []) sel
    && contains (codes "<=" ∷ codes "<" ∷ codes "=" ∷ codes "!=" ∷ codes ">=" ∷ codes ">" ∷ []) op
valid (QueryCriteria.index sel val) = contains (codes "wki" ∷ []) sel
valid (QueryCriteria.compound op left right) =
    contains (codes "AND" ∷ codes "OR" ∷ []) op && (valid left && valid right)
valid (QueryCriteria.negated e) = valid e

-- How two integers compare.
pub data Sign : Type 0 where
  less same greater : Sign

abbrev pub sign : ℤ → ℤ → Sign
sign a b = if ltb_ℤ a b then less else if a == b then same else greater

-- The signs that a comparison operator admits.
abbrev pub admits : Text → Sign → Bool
admits op less = contains (codes "<" ∷ codes "<=" ∷ codes "!=" ∷ []) op
admits op same = contains (codes "<=" ∷ codes ">=" ∷ codes "=" ∷ []) op
admits op greater = contains (codes ">" ∷ codes ">=" ∷ codes "!=" ∷ []) op

-- A column of text, where `source` gives the source of a statement.
abbrev pub text_field : (Statement → Text) → Text → Statement → Text
text_field source sel stmt =
    if sel == codes "id"
    then (header stmt).id
    else if sel == codes "source"
    then source stmt
    else (header stmt).publisher

abbrev pub number_field : Text → Statement → ℤ
number_field sel stmt = if sel == codes "timestamp" then (header stmt).timestamp else pos 0

-- Whether a statement satisfies a criteria, where `source` gives the source of a statement.
unfoldable pub satisfies_with : (Statement → Text) → QueryCriteria → Statement → Bool
satisfies_with source (QueryCriteria.value op sel val) s =
    beq (op == codes "=") (text_field source sel s == val)
satisfies_with source (QueryCriteria.range op sel val) s = admits op (sign (number_field sel s) val)
satisfies_with source (QueryCriteria.index sel val) s = refers val s
satisfies_with source (QueryCriteria.compound op left right) s =
    if op == codes "AND"
    then satisfies_with source left s && satisfies_with source right s
    else satisfies_with source left s || satisfies_with source right s
satisfies_with source (QueryCriteria.negated e) s = not (satisfies_with source e s)

abbrev pub publisher_of : Statement → Text
publisher_of s = (header s).publisher

-- Whether a statement satisfies a criteria, the source of an envelope being that of its first statement.
abbrev pub satisfies : QueryCriteria → Statement → Bool
satisfies = satisfies_with source_of

-- What the filters answer: they read the source of every statement as its publisher.
abbrev pub filters_in : QueryCriteria → Statement → Bool
filters_in = satisfies_with publisher_of

-- Whether a criteria tests the source.
abbrev pub tests_source : QueryCriteria → Bool
tests_source (QueryCriteria.value op sel val) = sel == codes "source"
tests_source (QueryCriteria.range op sel val) = false
tests_source (QueryCriteria.index sel val) = false
tests_source (QueryCriteria.compound op left right) = tests_source left || tests_source right
tests_source (QueryCriteria.negated e) = tests_source e

-- The two readings agree where the source is not tested, or is the publisher.
filters_in-satisfies :
    (c : QueryCriteria) (s : Statement)
    → (tests_source c ≡ false) ⊎ (source_of s ≡ publisher_of s)
    → filters_in c s ≡ satisfies c s
unfolding satisfies_with
filters_in-satisfies (QueryCriteria.value op sel val) s (inl untested) = ground (arith, untested)
filters_in-satisfies (QueryCriteria.value op sel val) s (inr own) = rw own refl
filters_in-satisfies (QueryCriteria.range op sel val) s h = refl
filters_in-satisfies (QueryCriteria.index sel val) s h = refl
filters_in-satisfies (QueryCriteria.compound op l r) s (inl untested) =
    let left = filters_in-satisfies l s (inl (ground arith)) in
    let right = filters_in-satisfies r s (inl (ground arith)) in rw (left, right) refl
filters_in-satisfies (QueryCriteria.compound op l r) s (inr own) =
    let left = filters_in-satisfies l s (inr own) in
    let right = filters_in-satisfies r s (inr own) in rw (left, right) refl
filters_in-satisfies (QueryCriteria.negated e) s h = ap not (filters_in-satisfies e s h)

range_compare-Entries :
    (a b : ℤ) → Entries (λ op f. f a b ≡ admits op (sign a b)) range_criteria_filter_compare
unfolding text_dec
range_compare-Entries (pos a) (pos b) = ground arith
range_compare-Entries (pos a) (negsuc b) = ground arith
range_compare-Entries (negsuc a) (pos b) = ground arith
range_compare-Entries (negsuc a) (negsuc b) = ground arith

module _ (a b : Text) where
  value_compare-Entries :
      Entries (λ op f. f a b ≡ beq (op == codes "=") (a == b)) value_criteria_filter_compare
  unfolding text_dec
  value_compare-Entries = ground arith

-- A combinator of two filters that answer `l` and `r`.
abbrev Joins :
    Statement
    → Bool
    → Bool
    → Text
    → (Statement → StatementFilter → StatementFilter → Result Bool)
    → Type 0
Joins s l r op f =
    (fl fr : StatementFilter)
    → fl s ≡ ok l
    → fr s ≡ ok r
    → f s fl fr ≡ ok (if op == codes "AND" then l && r else l || r)

module _ (s : Statement) where
  value_select-Entries :
      Entries (λ sel f. f s ≡ text_field publisher_of sel s) value_criteria_filter_select
  unfolding text_dec
  value_select-Entries = (refl, (refl, (refl, tt)))

  range_select-Entries : Entries (λ sel f. f s ≡ number_field sel s) range_criteria_filter_select
  unfolding text_dec
  range_select-Entries = (refl, (refl, tt))

  index_select-Entries : Entries (λ sel f. f s ≡ statement_refs s) index_criteria_filter_select
  index_select-Entries = (refl, tt)

  compound-Entries : (l r : Bool) → Entries (Joins s l r) compound_criteria_filters
  unfolding text_dec
  compound-Entries l r = (λ fl fr p q. rw p (ground arith), (λ fl fr p q. rw p (ground arith), tt))

index_criteria_contains-eq :
    (refs : List Text) (w : Text) → index_criteria_contains refs w ≡ contains refs w
unfolding index_criteria_contains
index_criteria_contains-eq [] w = refl
index_criteria_contains-eq (r ∷ refs) w = ground (arith, index_criteria_contains-eq refs w)

-- On the criteria of the language, the filter neither fails nor panics, as long as no statement inside
-- has a nil body.
pub run_criteria-filters_in :
    (c : QueryCriteria) (s : Statement)
    → valid c ≡ true
    → HasBodies s
    → run_criteria c s ≡ ok (filters_in c s)
unfolding make_criteria_filter_f valid satisfies_with
run_criteria-filters_in (QueryCriteria.value op sel val) s v wf =
    let (f, found, reads) =
      lookup-Entries (λ sel f. f s ≡ text_field publisher_of sel s) value_criteria_filter_select sel
        (value_select-Entries s) (ground arith) in
    let (g, found', tests) =
      lookup-Entries (λ op g. g (f s) val ≡ beq (op == codes "=") (f s == val))
        value_criteria_filter_compare op (value_compare-Entries (f s) val) (ground arith) in
    rw (found, found', tests, reads)
run_criteria-filters_in (QueryCriteria.range op sel val) s v wf =
    let (f, found, reads) =
      lookup-Entries (λ sel f. f s ≡ number_field sel s) range_criteria_filter_select sel
        (range_select-Entries s) (ground arith) in
    let (g, found', tests) =
      lookup-Entries (λ op g. g (f s) val ≡ admits op (sign (f s) val))
        range_criteria_filter_compare op (range_compare-Entries (f s) val) (ground arith) in
    rw (found, found', tests, reads)
run_criteria-filters_in (QueryCriteria.index sel val) s v wf =
    let (f, found, reads) =
      lookup-Entries (λ sel f. f s ≡ statement_refs s) index_criteria_filter_select sel
        (index_select-Entries s) (ground arith) in
    let (refs, done, each, _) = statement_refs-refers s wf in
    rw (found, reads, done, index_criteria_contains-eq refs val, each)
run_criteria-filters_in (QueryCriteria.compound op l r) s v wf =
    let (fl, ml, al) =
      >>=-eq-ok (make_criteria_filter_f l) _ (run_criteria-filters_in l s (ground arith) wf) in
    let (fr, mr, ar) =
      >>=-eq-ok (make_criteria_filter_f r) _ (run_criteria-filters_in r s (ground arith) wf) in
    let (f, found, joins) =
      lookup-Entries (Joins s (filters_in l s) (filters_in r s)) compound_criteria_filters op
        (compound-Entries s (filters_in l s) (filters_in r s)) (ground arith) in
    rw (found, ml, mr, joins fl fr al ar)
run_criteria-filters_in (QueryCriteria.negated e) s v wf =
    let (f, m, a) = >>=-eq-ok (make_criteria_filter_f e) _ (run_criteria-filters_in e s v wf) in
    rw (m, a)

-- On the criteria of the language, the filter answers what the criteria says of the statement; it
-- neither fails nor panics, as long as no statement inside has a nil body. The criteria does not test
-- the source, or the source of the statement is its publisher, as of every statement that is no
-- envelope.
pub run_criteria-satisfies :
    (c : QueryCriteria) (s : Statement)
    → valid c ≡ true
    → HasBodies s
    → (tests_source c ≡ false) ⊎ (source_of s ≡ publisher_of s)
    → run_criteria c s ≡ ok (satisfies c s)
run_criteria-satisfies c s v wf h =
    run_criteria-filters_in c s v wf ∙ ap ok (filters_in-satisfies c s h)
