-- ===== src/Query/Parse/Emit.antt =====
-- The tokens that the grammar of mc/query/query.peg emits for a query, and what they build.
pub mod Runs
pub mod RoundTrip
use concat.Base.{
  ℕ, ◌^◌, ◌<◌, ◌≡◌, ◌==◌, Text, text_eq, codes, Option, none, some, List, [], ◌∷◌, ◌++◌, All,
  if◌then◌else◌,
}
use concat.Base.Int.{ℤ, pos, negsuc}
use concat.Query.{
  Op, select, delete, FunctionSelector, QuerySelector, QueryCriteria, QueryOrderSpec, Query,
}
use concat.Query.Parse.{
  Token, peg_text, do_push, do_set_select_op, do_set_delete_op, do_set_simple_selector,
  do_set_compound_selector, do_set_function_selector, do_set_namespace, do_set_criteria,
  do_add_compound_criteria, do_add_negated_criteria, do_add_value_criteria, do_add_range_criteria,
  do_add_index_criteria, do_set_order, do_add_order_selector, do_set_order_dir, do_set_limit,
}

-- `< x > { p.push(text) }`
abbrev pub capture : Text → List Token
capture t = peg_text t ∷ do_push ∷ []

unfoldable pub emit_captures : List Text → List Token
emit_captures [] = []
emit_captures (t ∷ ts) = capture t ++ emit_captures ts

-- The rule Selector.
unfoldable pub emit_selector : QuerySelector → List Token
unfolding emit_captures
emit_selector (QuerySelector.simple sel) = capture sel ++ (do_set_simple_selector ∷ [])
emit_selector (QuerySelector.compound sels) = emit_captures sels ++ (do_set_compound_selector ∷ [])
emit_selector (QuerySelector.function f) =
    capture f.op ++ (capture f.sel ++ (do_set_function_selector ∷ []))

-- The rule OrderSelectorSpec.
unfoldable pub emit_order_spec : QueryOrderSpec → List Token
emit_order_spec spec =
    capture spec.sel
    ++ (do_add_order_selector
        ∷ (if spec.dir == [] then [] else capture spec.dir ++ (do_set_order_dir ∷ [])))

unfoldable pub emit_order_specs : List QueryOrderSpec → List Token
emit_order_specs [] = []
emit_order_specs (spec ∷ specs) = emit_order_spec spec ++ emit_order_specs specs

unfoldable pub emit_order : Option (List QueryOrderSpec) → List Token
emit_order none = []
emit_order (some specs) = emit_order_specs specs ++ (do_set_order ∷ [])

abbrev pub emit_source : Text → List Token
emit_source ns = peg_text ns ∷ do_set_namespace ∷ []

-- The digits that stand for a number; the grammar has no sign.
module _ (show : ℕ → Text) where
  abbrev digits : ℤ → Text
  digits (pos n) = show n
  digits (negsuc n) = []

  -- The rules SimpleCriteria, CompoundCriteria and MultiCriteria.
  unfoldable pub emit_criteria : QueryCriteria → List Token
  emit_criteria (QueryCriteria.value op sel val) =
      capture sel ++ (capture op ++ (capture val ++ (do_add_value_criteria ∷ [])))
  emit_criteria (QueryCriteria.range op sel val) =
      capture sel ++ (capture op ++ (capture (digits val) ++ (do_add_range_criteria ∷ [])))
  emit_criteria (QueryCriteria.index sel val) =
      capture sel ++ (capture val ++ (do_add_index_criteria ∷ []))
  emit_criteria (QueryCriteria.compound op left right) =
      emit_criteria left ++ (capture op ++ (emit_criteria right ++ (do_add_compound_criteria ∷ [])))
  emit_criteria (QueryCriteria.negated e) = emit_criteria e ++ (do_add_negated_criteria ∷ [])

  unfoldable pub emit_where : Option QueryCriteria → List Token
  emit_where none = []
  emit_where (some c) = emit_criteria c ++ (do_set_criteria ∷ [])

  abbrev pub emit_limit : ℤ → List Token
  emit_limit limit = peg_text (digits limit) ∷ do_set_limit ∷ []

  -- The rules Select and Grammar, for a query with the given selector; the limit 0 may be written.
  unfoldable pub emit_select : QuerySelector → Query → List Token
  emit_select sel q =
      emit_selector sel
      ++ (emit_source q.namespace
          ++ (emit_where q.criteria
              ++ (emit_order q.order ++ (emit_limit q.limit ++ (do_set_select_op ∷ [])))))

  -- The rules Delete and Grammar.
  unfoldable pub emit_delete : Query → List Token
  emit_delete q =
      emit_source q.namespace
      ++ (emit_where q.criteria ++ (emit_limit q.limit ++ (do_set_delete_op ∷ [])))

-- A number that Go's int holds and that can be written without a sign.
abbrev pub IsWritable : ℤ → Type 0
IsWritable (pos n) = n < 2 ^ 63
IsWritable (negsuc n) = ⊥

abbrev pub IsPrintable : QueryCriteria → Type 0
IsPrintable (QueryCriteria.value op sel val) = Unit
IsPrintable (QueryCriteria.range op sel val) = IsWritable val
IsPrintable (QueryCriteria.index sel val) = Unit
IsPrintable (QueryCriteria.compound op left right) = IsPrintable left × IsPrintable right
IsPrintable (QueryCriteria.negated e) = IsPrintable e

abbrev pub PrintableWhere : Option QueryCriteria → Type 0
PrintableWhere none = Unit
PrintableWhere (some c) = IsPrintable c
