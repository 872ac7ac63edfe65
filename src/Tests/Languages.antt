-- ===== src/Tests/Languages.antt =====
-- Runs of the query language.
use mathlib.Core.List.Permᴰ
use mathlib.Core.List.{Permᴰ, reverse}
use concat.Query.Selector.{Scalar}
use concat.Query.ResultSet.Order.{IsOrder}
use concat.Base.{
  inl, ℕ, zero, suc, ◌^◌, ◌<◌, ◌≡◌, refl, ap, true, Text, text_eq, text_dec, codes, some, List, [],
  ◌∷◌, map, Result, ok, panic, outcome, succeeded, failed, arith, keep, All, In, inl, dedup,
  contains, has_prefix, join, length, Nodup, if◌then◌else◌,
}
use concat.Base.Int.{ℤ, pos, ◌≤ℤ◌, int_eq}
use concat.Base.Dict.{lookup}
use concat.Query.{QuerySelector, QueryCriteria, Query}
use concat.Query.Statement.{Statement, StatementBody, statement_refs}
use concat.Query.Statement.Refs.{refers, HasBodies, statement_refs-refers}
use concat.Query.Filter.{make_criteria_filter_f}
use concat.Query.Filter.Algebra.{run_criteria}
use concat.Query.Filter.Meaning.{valid, satisfies, satisfies_with, run_criteria-satisfies}
use concat.Query.Filter.Errors.{outcome-make_criteria_filter_f}
use concat.Query.Filter.Namespace.{
  Pattern, family, run_namespace, matches_pattern, run_namespace-matches_pattern,
}
use concat.Query.Selector.{int, int64}
use concat.Query.ResultSet.{scalar, object}
use concat.Query.ResultSet.Simple.{cut, collect, collect-eq-cut}
use concat.Query.Eval.{eval_query}
use concat.Query.Eval.Denotation.{IsWellFormed, asks, distinct, eval_query-simple}
use concat.Query.Eval.Functions.{
  times, eval_query-count, eval_query-min_max, eval_query-counter_panics,
}
use concat.Query.Eval.Compound.{fields, AllSelectors, eval_query-compound}
use concat.Query.Parse.{parse_tokens}
use concat.Query.Parse.Emit.{emit_select, emit_delete}
use concat.Query.Parse.Emit.RoundTrip.{parse_tokens-emit_select, parse_tokens-emit_delete}
use concat.Query.Compile.Kind.{is_statement_query, is_index_criteria, index_criteria_tables}
use concat.Query.Compile.Kind.Reads.{
  keeps, is_statement_query-keeps, index_criteria_tables-is_index_criteria,
}
use concat.Query.Compile.Clauses.{compile_query_columns}
use concat.Query.Compile.Rows.{SimpleRowSelector, RowSelector, compile_query_row_selector}
use concat.Query.Compile.Columns.{Fits, compile_query_columns-Fits}
use concat.Tests.Samples.{
  stated, first, third, fourth, statements, cats, images, function_of, purge, by_id,
}

abbrev pets : Pattern
pets = family (codes "images")

cats-valid : valid cats ≡ true
unfolding valid text_dec
cats-valid = ground arith

images-IsWellFormed : (sel : QuerySelector) (limit : ℕ) → IsWellFormed (images sel limit) pets
images-IsWellFormed sel limit = record {
  pattern_valid = tt;
  namespace_text = refl;
  criteria_valid = cats-valid;
}

statements-HasBodies : All HasBodies statements
statements-HasBodies = (tt, (tt, ((tt, (tt, tt)), (tt, tt))))

abbrev asked : Query → List Statement
asked q = keep (asks q pets) statements

abbrev simple_query : Query
simple_query = images (QuerySelector.simple (codes "namespace")) 1

abbrev compound_names : List Text
compound_names = codes "id" ∷ codes "source" ∷ []

abbrev compound_query : Query
compound_query = images (QuerySelector.compound compound_names) 1

abbrev count_query : Query
count_query = images (function_of "COUNT" "publisher") 5

abbrev min_query : Query
min_query = images (function_of "MIN" "timestamp") 0

abbrev counter_query : Query
counter_query = images (function_of "MAX" "counter") 7

first-asked : (sel : QuerySelector) (limit : ℕ) → In first (asked (images sel limit))
unfolding satisfies_with refers matches_pattern text_dec has_prefix
first-asked sel limit = inl refl

-- A map that is gone through from its last key.
reverse-IsOrder : IsOrder reverse
reverse-IsOrder keys = Permᴰ.reverse keys

eval_query-simple_example :
    (vs : List Scalar) × (eval_query reverse simple_query statements ≡ ok (map scalar vs))
    × Permᴰ vs (distinct (codes "namespace") (pos 1) (asked simple_query))
unfolding text_dec
eval_query-simple_example =
    eval_query-simple simple_query pets (images-IsWellFormed _ _) reverse (codes "namespace")
      statements reverse-IsOrder refl (ground arith) statements-HasBodies

compound_names-valid : AllSelectors compound_names
unfolding text_dec
compound_names-valid = (refl, (refl, tt))

eval_query-compound_example :
    eval_query reverse compound_query statements
    ≡ ok (map (λ s. object (fields compound_names s [])) (asked compound_query))
eval_query-compound_example =
    eval_query-compound reverse compound_query pets compound_names statements
      (images-IsWellFormed _ _) refl compound_names-valid statements-HasBodies

eval_query-count_example :
    eval_query reverse count_query statements
    ≡ ok (
        scalar (int (pos (length (distinct (codes "publisher") (pos 5) (asked count_query))))) ∷ [])
unfolding text_dec
eval_query-count_example =
    eval_query-count reverse count_query pets (codes "publisher") statements reverse-IsOrder
      (images-IsWellFormed _ _) refl (ground arith) statements-HasBodies

eval_query-min_max_example :
    (lo hi : ℤ) × (min_query.selector ≡ some (function_of "MIN" "timestamp")
      → eval_query reverse min_query statements ≡ ok (scalar (int64 lo) ∷ []))
    × (min_query.selector ≡ some (function_of "MAX" "timestamp")
        → eval_query reverse min_query statements ≡ ok (scalar (int64 hi) ∷ []))
    × In lo (times (asked min_query))
    × In hi (times (asked min_query))
    × All (λ t. lo ≤ℤ t) (times (asked min_query))
    × All (λ t. t ≤ℤ hi) (times (asked min_query))
eval_query-min_max_example =
    eval_query-min_max reverse min_query pets statements first reverse-IsOrder
      (images-IsWellFormed _ _) refl statements-HasBodies
      (first-asked (function_of "MIN" "timestamp") 0)

eval_query-counter_panics_example : eval_query reverse counter_query statements ≡ panic
unfolding text_dec
eval_query-counter_panics_example =
    eval_query-counter_panics reverse counter_query pets (codes "MAX") statements 7 first
      reverse-IsOrder (images-IsWellFormed _ _) refl (ground arith) refl statements-HasBodies
      (first-asked (function_of "MAX" "counter") 7)

run_criteria-satisfies_example : run_criteria cats third ≡ ok (satisfies cats third)
unfolding text_dec
run_criteria-satisfies_example =
    run_criteria-satisfies cats third cats-valid (tt, (tt, tt)) (inl (ground arith))

outcome-make_criteria_filter_f_example :
    outcome (make_criteria_filter_f (QueryCriteria.value (codes "<") (codes "id") (codes "s1"))) ≡ (
      if valid (QueryCriteria.value (codes "<") (codes "id") (codes "s1"))
      then succeeded
      else failed)
outcome-make_criteria_filter_f_example =
    outcome-make_criteria_filter_f (QueryCriteria.value (codes "<") (codes "id") (codes "s1"))

run_namespace-matches_pattern_example :
    run_namespace simple_query fourth ≡ ok (matches_pattern pets fourth)
run_namespace-matches_pattern_example =
    run_namespace-matches_pattern simple_query pets fourth tt refl

statement_refs-refers_example :
    (refs : List Text) × (statement_refs third ≡ ok refs)
    × ((w : Text) → contains refs w ≡ refers w third)
    × Nodup refs
statement_refs-refers_example = statement_refs-refers third (tt, (tt, tt))

abbrev numbers : List ℤ
numbers = pos 3 ∷ pos 1 ∷ pos 3 ∷ pos 2 ∷ []

collect-eq-cut_example : collect (pos 2) [] numbers ≡ cut (pos 2) (dedup numbers)
collect-eq-cut_example = collect-eq-cut (pos 2) numbers

-- Numbers in unary.
show : ℕ → Text
show zero = []
show (suc n) = b'1' ∷ show n

count_digits : Text → ℕ
count_digits [] = zero
count_digits (c ∷ s) = suc (count_digits s)

abbrev atoi : Text → Result ℤ
atoi s = ok (pos (count_digits s))

count_digits-show : (n : ℕ) → count_digits (show n) ≡ n
unfolding show count_digits
count_digits-show zero = refl
count_digits-show (suc n) = ap suc (count_digits-show n)

reads : (n : ℕ) → n < 2 ^ 63 → atoi (show n) ≡ ok (pos n)
reads n h = ap (λ k. ok (pos k)) (count_digits-show n)

parse_tokens-emit_select_example :
    parse_tokens atoi (emit_select show (QuerySelector.compound compound_names) compound_query)
    ≡ ok compound_query
parse_tokens-emit_select_example =
    parse_tokens-emit_select atoi show reads compound_query (QuerySelector.compound compound_names)
      refl refl (tt, (ground arith, tt)) (ground arith)

parse_tokens-emit_delete_example : parse_tokens atoi (emit_delete show purge) ≡ ok purge
parse_tokens-emit_delete_example =
    parse_tokens-emit_delete atoi show reads purge refl refl refl (tt, (ground arith, tt))
      (ground arith)

by_id-is_statement_query : is_statement_query by_id ≡ true
unfolding is_statement_query text_dec lookup
by_id-is_statement_query = ground arith

is_statement_query-keeps_example :
    keeps by_id first ≡ keeps by_id (stated 9 "s1" "elsewhere" 99 StatementBody.empty)
is_statement_query-keeps_example =
    is_statement_query-keeps by_id first (stated 9 "s1" "elsewhere" 99 StatementBody.empty)
      by_id-is_statement_query refl

index_criteria_tables-is_index_criteria_example :
    index_criteria_tables cats
    ≡ ok (if is_index_criteria cats then (codes "wki", codes "Refs") ∷ [] else [])
index_criteria_tables-is_index_criteria_example =
    index_criteria_tables-is_index_criteria cats cats-valid

abbrev two_strings : RowSelector
two_strings =
    RowSelector.compound compound_names (SimpleRowSelector.string ∷ SimpleRowSelector.string ∷ [])

compile_query_columns-Fits_example :
    Fits
      (some (QuerySelector.compound compound_names))
      true
      (codes "Envelope.id, source")
      two_strings
unfolding compile_query_columns compile_query_row_selector text_dec lookup join
compile_query_columns-Fits_example =
    compile_query_columns-Fits (some (QuerySelector.compound compound_names)) true
      (codes "Envelope.id, source") two_strings (ground arith) (ground arith)
