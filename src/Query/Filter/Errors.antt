-- ===== src/Query/Filter/Errors.antt =====
-- Which criteria make a filter, and which are errors.
use concat.Base.{◌≡◌, text_eq, arith, if◌then◌else◌, succeeded, failed, outcome}
use concat.Base.Dict.{lookup}
use concat.Query.{QueryCriteria}
use concat.Query.Filter.{make_criteria_filter_f}
use concat.Query.Filter.Meaning.{valid}

-- A filter is made exactly for the criteria whose selectors and operators all belong to the
-- language; any other criteria is an error, and none panics.
pub outcome-make_criteria_filter_f :
    (c : QueryCriteria)
    → outcome (make_criteria_filter_f c) ≡ (if valid c then succeeded else failed)
unfolding make_criteria_filter_f valid lookup
outcome-make_criteria_filter_f (QueryCriteria.value op sel val) = ground arith
outcome-make_criteria_filter_f (QueryCriteria.range op sel val) = ground arith
outcome-make_criteria_filter_f (QueryCriteria.index sel val) = ground arith
outcome-make_criteria_filter_f (QueryCriteria.compound op l r) =
    ground (arith, outcome-make_criteria_filter_f l, outcome-make_criteria_filter_f r)
outcome-make_criteria_filter_f (QueryCriteria.negated e) =
    ground (arith, outcome-make_criteria_filter_f e)
