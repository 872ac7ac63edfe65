-- ===== src/Query/Eval/Loop.antt =====
-- The loop of EvalQuery: the statements that pass the filters are added one by one.
use concat.Base.{
  ◌≡◌, refl, ◌∙◌, Bool, List, [], ◌∷◌, ◌++◌, map, Result, ok, ◌>>=◌, >>=_cong, arith, keep, All,
  Bool-cases, inl, inr,
}
use mathlib.Core.List.{append_assoc, append-nil}
use concat.Base.Int.{ℤ, int_eq}
use concat.Query.Statement.{Statement}
use concat.Query.Statement.Refs.{HasBodies}
use concat.Query.Selector.{Scalar, scalar_eq, StatementSelector, FunctionStatementSelector}
use concat.Query.Filter.{StatementFilter}
use concat.Query.ResultSet.{
  Value, SimpleResultSet, QueryResultSet, simple, compound, function, simple_add, add,
}
use concat.Query.ResultSet.Simple.{collect, offer}
use concat.Query.Eval.{passes, eval_loop}

abbrev pub gathering : StatementSelector → List Scalar → ℤ → SimpleResultSet
gathering getf rset limit = record { rset = rset; res = []; getf = getf; limit = limit }

unfoldable pub add_all : QueryResultSet → List Statement → Result QueryResultSet
add_all rs [] = ok rs
add_all rs (s ∷ ss) = add rs s >>= λ rs'. add_all rs' ss

-- Filters that answer `m` on every statement with set bodies.
module _ (nf cf : StatementFilter) (m : Statement → Bool)
    (answers : (s : Statement) → HasBodies s → passes nf cf s ≡ ok (m s)) where
  pub eval_loop-add_all :
      (rs : QueryResultSet) (ss : List Statement)
      → All HasBodies ss
      → eval_loop nf cf rs ss ≡ add_all rs (keep m ss)
  unfolding eval_loop add_all
  eval_loop-add_all rs [] wf = refl
  eval_loop-add_all rs (s ∷ ss) (h, wf) = elim (Bool-cases (m s)) [
    | inl kept ↦
        rw (answers s h, kept) (>>=_cong (add rs s) _ _ (λ rs'. eval_loop-add_all rs' ss wf))
    | inr dropped ↦ rw (answers s h, dropped) (eval_loop-add_all rs ss wf)
  ]

pub keep-HasBodies :
    (m : Statement → Bool) (ss : List Statement) → All HasBodies ss → All HasBodies (keep m ss)
keep-HasBodies m [] wf = tt
keep-HasBodies m (s ∷ ss) (h, wf) = ground (arith, keep-HasBodies m ss wf)

module _ (g : Statement → Scalar) (getf : StatementSelector)
    (reads : (s : Statement) → HasBodies s → getf s ≡ ok (g s)) where
  simple_add-offer :
      (rset : List Scalar) (limit : ℤ) (s : Statement)
      → HasBodies s
      → simple_add (gathering getf rset limit) s
        ≡ ok (gathering getf (offer limit rset (g s)) limit)
  unfolding simple_add
  simple_add-offer rset limit s h = rw (reads s h) (ground arith)

  pub add_all-simple :
      (rset : List Scalar) (limit : ℤ) (ss : List Statement)
      → All HasBodies ss
      → add_all (simple (gathering getf rset limit)) ss
        ≡ ok (simple (gathering getf (collect limit rset (map g ss)) limit))
  unfolding add_all add collect
  add_all-simple rset limit [] wf = refl
  add_all-simple rset limit (s ∷ ss) (h, wf) =
      rw (simple_add-offer rset limit s h) (add_all-simple (offer limit rset (g s)) limit ss wf)

  pub add_all-function :
      (fun : FunctionStatementSelector) (rset : List Scalar) (limit : ℤ) (ss : List Statement)
      → All HasBodies ss
      → add_all (function (record { rset = gathering getf rset limit; fun = fun; res = [] })) ss
        ≡ ok (
            function (record {
              rset = gathering getf (collect limit rset (map g ss)) limit;
              fun = fun;
              res = [];
            }))
  unfolding add_all add collect
  add_all-function fun rset limit [] wf = refl
  add_all-function fun rset limit (s ∷ ss) (h, wf) =
      rw (simple_add-offer rset limit s h)
        (add_all-function fun (offer limit rset (g s)) limit ss wf)

module _ (g : Statement → Value) (getf : Statement → Result Value)
    (reads : (s : Statement) → HasBodies s → getf s ≡ ok (g s)) where
  pub add_all-compound :
      (rset : List Value) (limit : ℤ) (ss : List Statement)
      → All HasBodies ss
      → add_all (compound (record { rset = rset; getf = getf; limit = limit })) ss
        ≡ ok (compound (record { rset = rset ++ map g ss; getf = getf; limit = limit }))
  unfolding add_all add
  add_all-compound rset limit [] wf = rw append-nil
  add_all-compound rset limit (s ∷ ss) (h, wf) =
      rw (reads s h) (add_all-compound (rset ++ (g s ∷ [])) limit ss wf ∙ rw append_assoc)
