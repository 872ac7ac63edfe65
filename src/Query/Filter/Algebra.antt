-- ===== src/Query/Filter/Algebra.antt =====
-- Boolean algebra of the criteria filters, with their errors and panics.
use concat.Base.{◌≡◌, Bool, text_eq, codes, Result, ◌>>=◌, arith, text_dec}
use concat.Base.Dict.{lookup}
use concat.Query.{QueryCriteria}
use concat.Query.Statement.{Statement}
use concat.Query.Filter.{make_criteria_filter_f}

-- Making the filter of a criteria and applying it to a statement.
abbrev pub run_criteria : QueryCriteria → Statement → Result Bool
run_criteria c stmt = make_criteria_filter_f c >>= λ filter. filter stmt

-- NOT (a AND b) and (NOT a) OR (NOT b) give the same answer, error or panic on every statement,
-- and so do NOT (a OR b) and (NOT a) AND (NOT b).
pub run_criteria_de_morgan :
    (a b : QueryCriteria) (s : Statement)
    → (run_criteria (QueryCriteria.negated (QueryCriteria.compound (codes "AND") a b)) s
        ≡ run_criteria
            (QueryCriteria.compound
              (codes "OR")
              (QueryCriteria.negated a)
              (QueryCriteria.negated b))
            s)
      × (run_criteria (QueryCriteria.negated (QueryCriteria.compound (codes "OR") a b)) s
          ≡ run_criteria
              (QueryCriteria.compound
                (codes "AND")
                (QueryCriteria.negated a)
                (QueryCriteria.negated b))
              s)
unfolding make_criteria_filter_f text_dec lookup
run_criteria_de_morgan a b s = ground arith
