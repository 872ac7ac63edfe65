-- ===== src/Query/Parse/Emit/RoundTrip.antt =====
-- Running the tokens that the grammar emits for a query.
use concat.Base.{
  ℕ, ◌^◌, ◌<◌, ◌≡◌, refl, Text, text_eq, text_dec, codes, Option, none, some, List, [], ◌∷◌, ◌++◌,
  Result, ok, arith, length,
}
use mathlib.Core.List.{append_assoc, append-nil}
use concat.Base.Int.{ℤ, pos, negsuc}
use concat.Query.{select, delete, QuerySelector, QueryCriteria, QueryOrderSpec, Query}
use concat.Query.Parse.{
  Cell, text, order_spec, ParseState, Token, execute_token, do_set_compound_selector, do_set_order,
  pop_texts, pop_order_specs, set_compound_selector, set_order, set_simple_selector,
  set_function_selector, set_criteria, set_namespace, set_limit, set_select_op, set_delete_op,
  add_order_selector, set_order_dir, initial, parse_tokens, execute_tokens, keep_error,
}
use concat.Query.Parse.Emit.{
  emit_criteria, emit_selector, emit_order_spec, emit_order_specs, emit_where, emit_order,
  emit_source, emit_limit, emit_select, emit_delete, IsWritable, PrintableWhere,
}
use concat.Query.Parse.Emit.Runs.{
  on, pushed, Runs, Runs-nil, Runs-token, Runs-capture, Runs-captures, Runs-append,
  emit_criteria-Runs,
}

-- A query that is being built, with no limit yet.
abbrev built :
    Text → Option QuerySelector → Option QueryCriteria → Option (List QueryOrderSpec) → Query
built ns sel crit order = record {
  op = select;
  namespace = ns;
  selector = sel;
  criteria = crit;
  order = order;
  limit = pos 0;
}

-- Popping the whole stack restores the order in which the values were pushed.
pop_texts-pushed :
    (ts acc : List Text) (q : Query) (st : List Cell)
    → pop_texts (length (pushed text ts st)) acc (on q (pushed text ts st))
      ≡ pop_texts (length st) (ts ++ acc) (on q st)
unfolding pushed pop_texts
pop_texts-pushed [] acc q st = refl
pop_texts-pushed (t ∷ ts) acc q st = pop_texts-pushed ts acc q (text t ∷ st)

pop_order_specs-pushed :
    (specs acc : List QueryOrderSpec) (q : Query) (st : List Cell)
    → pop_order_specs (length (pushed order_spec specs st)) acc (on q (pushed order_spec specs st))
      ≡ pop_order_specs (length st) (specs ++ acc) (on q st)
unfolding pushed pop_order_specs
pop_order_specs-pushed [] acc q st = refl
pop_order_specs-pushed (o ∷ specs) acc q st = pop_order_specs-pushed specs acc q (order_spec o ∷ st)

module _ (atoi : Text → Result ℤ) where
  set_compound_selector-pushed :
      (sels : List Text) (q : Query) (t : Text)
      → execute_token atoi do_set_compound_selector t (on q (pushed text sels []))
        ≡ ok (t, on (record q { selector = some (QuerySelector.compound sels) }) [])
  unfolding execute_token set_compound_selector
  set_compound_selector-pushed sels q t = rw (pop_texts-pushed sels [] q [], append-nil)

  set_order-pushed :
      (specs : List QueryOrderSpec) (q : Query) (t : Text)
      → execute_token atoi do_set_order t (on q (pushed order_spec specs []))
        ≡ ok (t, on (record q { order = some specs }) [])
  unfolding execute_token set_order
  set_order-pushed specs q t = rw (pop_order_specs-pushed specs [] q [], append-nil)

  emit_selector-Runs :
      (sel : QuerySelector) (rest : List Token) (q : Query) (c : ParseState)
      → Runs atoi rest (on (record q { selector = some sel }) []) c
      → Runs atoi (emit_selector sel ++ rest) (on q []) c
  unfolding emit_selector execute_token set_simple_selector set_function_selector
      set_compound_selector
  emit_selector-Runs (QuerySelector.simple sel) rest q c r =
      Runs-capture atoi sel _ q [] c (Runs-token atoi _ _ _ _ _ (λ t. refl) r)
  emit_selector-Runs (QuerySelector.compound sels) rest q c r = rw append_assoc (
      Runs-captures atoi sels _ q [] c
        (Runs-token atoi _ _ _ _ _ (set_compound_selector-pushed sels q) r))
  emit_selector-Runs (QuerySelector.function f) rest q c r =
      Runs-capture atoi f.op _ q [] c
        (Runs-capture atoi f.sel _ q _ c (Runs-token atoi _ _ _ _ _ (λ t. refl) r))

  emit_order_spec-Runs :
      (sel dir : Text) (rest : List Token) (q : Query) (st : List Cell) (c : ParseState)
      → Runs atoi rest (on q (order_spec (record { sel = sel; dir = dir }) ∷ st)) c
      → Runs atoi (emit_order_spec (record { sel = sel; dir = dir }) ++ rest) (on q st) c
  unfolding emit_order_spec execute_token add_order_selector set_order_dir text_dec
  emit_order_spec-Runs sel [] rest q st c r =
      Runs-capture atoi sel _ q st c (Runs-token atoi _ _ _ _ _ (λ t. refl) r)
  emit_order_spec-Runs sel (d ∷ dir) rest q st c r = Runs-capture atoi sel _ q st c (
      Runs-token atoi _ _ _ _ _ (λ t. refl)
        (Runs-capture atoi (d ∷ dir) _ q _ c (Runs-token atoi _ _ _ _ _ (λ t. refl) r)))

  emit_order_specs-Runs :
      (specs : List QueryOrderSpec) (rest : List Token) (q : Query) (st : List Cell)
      (c : ParseState)
      → Runs atoi rest (on q (pushed order_spec specs st)) c
      → Runs atoi (emit_order_specs specs ++ rest) (on q st) c
  unfolding emit_order_specs pushed
  emit_order_specs-Runs [] rest q st c r = r
  emit_order_specs-Runs (o ∷ specs) rest q st c r = rw append_assoc (
      emit_order_spec-Runs o.sel o.dir (emit_order_specs specs ++ rest) q st c
        (emit_order_specs-Runs specs rest q (order_spec o ∷ st) c r))

  emit_order-Runs :
      (order : Option (List QueryOrderSpec)) (rest : List Token) (ns : Text)
      (sel : Option QuerySelector) (crit : Option QueryCriteria) (c : ParseState)
      → Runs atoi rest (on (built ns sel crit order) []) c
      → Runs atoi (emit_order order ++ rest) (on (built ns sel crit none) []) c
  unfolding emit_order
  emit_order-Runs none rest ns sel crit c r = r
  emit_order-Runs (some specs) rest ns sel crit c r = rw append_assoc (
      emit_order_specs-Runs specs _ _ [] c (Runs-token atoi _ _ _ _ _ (set_order-pushed specs _) r))

module _ (atoi : Text → Result ℤ) (show : ℕ → Text)
    (reads : (n : ℕ) → n < 2 ^ 63 → atoi (show n) ≡ ok (pos n)) where
  emit_where-Runs :
      (crit : Option QueryCriteria) (rest : List Token) (ns : Text) (sel : Option QuerySelector)
      (c : ParseState)
      → PrintableWhere crit
      → Runs atoi rest (on (built ns sel crit none) []) c
      → Runs atoi (emit_where show crit ++ rest) (on (built ns sel none none) []) c
  unfolding emit_where execute_token set_criteria
  emit_where-Runs none rest ns sel c p r = r
  emit_where-Runs (some d) rest ns sel c p r = rw append_assoc (
      Runs-append atoi (emit_criteria show d) _ _ _ _ (emit_criteria-Runs atoi show reads d _ [] p)
        (Runs-token atoi _ _ _ _ _ (λ t. refl) r))

  emit_limit-Runs :
      (limit : ℤ) (rest : List Token) (q : Query) (c : ParseState)
      → IsWritable limit
      → Runs atoi rest (on (record q { limit = limit }) []) c
      → Runs atoi (emit_limit show limit ++ rest) (on q []) c
  unfolding execute_tokens execute_token set_limit
  emit_limit-Runs (pos n) rest q c h r = record {
    at = λ t. rw (reads n h, keep_error) (r.at (show n));
  }
  emit_limit-Runs (negsuc n) rest q c h r = absurd h

  emit_source-Runs :
      (ns : Text) (rest : List Token) (q : Query) (c : ParseState)
      → Runs atoi rest (on (record q { namespace = ns }) []) c
      → Runs atoi (emit_source ns ++ rest) (on q []) c
  unfolding execute_tokens execute_token set_namespace
  emit_source-Runs ns rest q c r = record { at = λ t. r.at ns }

  -- Running what the grammar emits for a select query gives back that query, whatever its selector,
  -- criteria, order and limit, as long as its numbers can be written and read.
  pub parse_tokens-emit_select :
      (q : Query) (sel : QuerySelector)
      → q.op ≡ select
      → q.selector ≡ some sel
      → PrintableWhere q.criteria
      → IsWritable q.limit
      → parse_tokens atoi (emit_select show sel q) ≡ ok q
  unfolding parse_tokens emit_select execute_token set_select_op
  parse_tokens-emit_select q sel eo es pw wl =
      let r : Runs atoi (emit_select show sel q) initial
          (on (record q { op = select; selector = some sel }) []) =
        emit_selector-Runs atoi sel _ _ _ (
          emit_source-Runs q.namespace _ _ _ (
            emit_where-Runs q.criteria _ q.namespace (some sel) _ pw (
              emit_order-Runs atoi q.order _ q.namespace (some sel) q.criteria _ (
                emit_limit-Runs q.limit _ _ _ wl
                  (Runs-token atoi _ _ _ _ _ (λ t. refl) (Runs-nil atoi _)))))) in
      let (u, e) = r.at [] in rw e (ground (arith, eo, es))

  -- A delete query comes back too, with the selector "id" and no order.
  pub parse_tokens-emit_delete :
      (q : Query)
      → q.op ≡ delete
      → q.selector ≡ some (QuerySelector.simple (codes "id"))
      → q.order ≡ none
      → PrintableWhere q.criteria
      → IsWritable q.limit
      → parse_tokens atoi (emit_delete show q) ≡ ok q
  unfolding parse_tokens emit_delete execute_token set_delete_op
  parse_tokens-emit_delete q eo es en pw wl =
      let r : Runs atoi (emit_delete show q) initial (
          on
            (record q {
              op = delete;
              selector = some (QuerySelector.simple (codes "id"));
              order = none;
            })
            []) =
        emit_source-Runs q.namespace _ _ _ (
          emit_where-Runs q.criteria _ q.namespace none _ pw (
            emit_limit-Runs q.limit _ _ _ wl
              (Runs-token atoi _ _ _ _ _ (λ t. refl) (Runs-nil atoi _)))) in
      let (u, e) = r.at [] in rw e (ground (arith, eo, es, en))
