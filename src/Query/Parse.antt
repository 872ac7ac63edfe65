-- ===== src/Query/Parse.antt =====
-- mc/query/parse.go, and Execute of mc/query/query.peg.go: the stack machine that builds a query
-- from the actions of the grammar.
pub mod Emit
use concat.Base.{
  ℕ, zero, suc, Text, codes, Option, none, some, List, [], ◌∷◌, Error, Result, ok, err, panic,
  ◌>>=◌, length,
}
use concat.Base.Int.{ℤ, pos}
use concat.Query.{
  Op, select, delete, FunctionSelector, QuerySelector, QueryCriteria, QueryOrderSpec, Query,
}

-- What a cell of the stack holds: the `interface{}` of ConsCell.
pub data Cell : Type 0 where
  text : Text → Cell
  criteria : QueryCriteria → Cell
  order_spec : QueryOrderSpec → Cell

-- ParseState. The linked list of ConsCell is a list, its top first.
pub record ParseState : Type 0 where
  pub query : Query
  pub stack : List Cell
  pub err : Option Error

-- A pop of the empty stack and a failed type assertion panic.
abbrev pub Step : Type 0
Step = ParseState → Result ParseState

unfoldable pub push : Cell → Step
push val ps = ok (record ps { stack = val ∷ ps.stack })

unfoldable pub pop : ParseState → Result (Cell × ParseState)
pop ps = elim ps.stack [ [] ↦ panic | top ∷ rest ↦ ok (top, record ps { stack = rest }) ]

abbrev pub as_text : Cell → Result Text
as_text (text t) = ok t
as_text (criteria c) = panic
as_text (order_spec o) = panic

abbrev pub as_criteria : Cell → Result QueryCriteria
as_criteria (criteria c) = ok c
as_criteria (text t) = panic
as_criteria (order_spec o) = panic

abbrev pub as_order_spec : Cell → Result QueryOrderSpec
as_order_spec (order_spec o) = ok o
as_order_spec (text t) = panic
as_order_spec (criteria c) = panic

unfoldable pub pop_text : ParseState → Result (Text × ParseState)
unfolding pop
pop_text ps = pop ps >>= λ (top, ps'). as_text top >>= λ t. ok (t, ps')

unfoldable pub pop_criteria : ParseState → Result (QueryCriteria × ParseState)
unfolding pop
pop_criteria ps = pop ps >>= λ (top, ps'). as_criteria top >>= λ c. ok (c, ps')

unfoldable pub pop_order_spec : ParseState → Result (QueryOrderSpec × ParseState)
unfolding pop
pop_order_spec ps = pop ps >>= λ (top, ps'). as_order_spec top >>= λ o. ok (o, ps')

unfoldable pub set_select_op : Step
set_select_op ps = ok (record ps { query = record (ps.query) { op = select } })

unfoldable pub set_delete_op : Step
set_delete_op ps = ok (record ps {
  query = record (ps.query) { op = delete; selector = some (QuerySelector.simple (codes "id")) };
})

unfoldable pub set_simple_selector : Step
unfolding pop_text
set_simple_selector ps = do
  (sel, ps') ← pop_text ps
  ok (record ps' { query = record (ps'.query) { selector = some (QuerySelector.simple sel) } })

-- The loop of setCompoundSelector: what is popped last stands first.
unfoldable pub pop_texts : ℕ → List Text → ParseState → Result (List Text × ParseState)
unfolding pop_text
pop_texts zero sels ps = ok (sels, ps)
pop_texts (suc count) sels ps = do (sel, ps') ← pop_text ps; pop_texts count (sel ∷ sels) ps'

unfoldable pub set_compound_selector : Step
unfolding pop_texts
set_compound_selector ps = do
  (sels, ps') ← pop_texts (length ps.stack) [] ps
  ok (record ps' { query = record (ps'.query) { selector = some (QuerySelector.compound sels) } })

unfoldable pub set_function_selector : Step
unfolding pop_text
set_function_selector ps = do
  (sel, ps') ← pop_text ps
  (op, ps'') ← pop_text ps'
  ok (record ps'' {
    query = record (ps''.query) {
      selector = some (QuerySelector.function (record { op = op; sel = sel }));
    };
  })

unfoldable pub set_namespace : Text → Step
set_namespace ns ps = ok (record ps { query = record (ps.query) { namespace = ns } })

unfoldable pub set_criteria : Step
unfolding pop_criteria
set_criteria ps = do
  (c, ps') ← pop_criteria ps
  ok (record ps' { query = record (ps'.query) { criteria = some c } })

unfoldable pub add_value_criteria : Step
unfolding pop_text push
add_value_criteria ps = do
  (val, ps1) ← pop_text ps
  (op, ps2) ← pop_text ps1
  (sel, ps3) ← pop_text ps2
  push (criteria (QueryCriteria.value op sel val)) ps3

unfoldable pub add_index_criteria : Step
unfolding pop_text push
add_index_criteria ps = do
  (val, ps1) ← pop_text ps
  (sel, ps2) ← pop_text ps1
  push (criteria (QueryCriteria.index sel val)) ps2

unfoldable pub add_compound_criteria : Step
unfolding pop_text pop_criteria push
add_compound_criteria ps = do
  (right, ps1) ← pop_criteria ps
  (op, ps2) ← pop_text ps1
  (left, ps3) ← pop_criteria ps2
  push (criteria (QueryCriteria.compound op left right)) ps3

unfoldable pub add_negated_criteria : Step
unfolding pop_criteria push
add_negated_criteria ps = do
  (e, ps') ← pop_criteria ps
  push (criteria (QueryCriteria.negated e)) ps'

-- The loop of setOrder.
unfoldable pub pop_order_specs :
    ℕ → List QueryOrderSpec → ParseState → Result (List QueryOrderSpec × ParseState)
unfolding pop_order_spec
pop_order_specs zero specs ps = ok (specs, ps)
pop_order_specs (suc count) specs ps = do
  (spec, ps') ← pop_order_spec ps
  pop_order_specs count (spec ∷ specs) ps'

unfoldable pub set_order : Step
unfolding pop_order_specs
set_order ps = do
  (specs, ps') ← pop_order_specs (length ps.stack) [] ps
  ok (record ps' { query = record (ps'.query) { order = some specs } })

unfoldable pub add_order_selector : Step
unfolding pop_text push
add_order_selector ps = do
  (sel, ps') ← pop_text ps
  push (order_spec (record { sel = sel; dir = [] })) ps'

-- `ps.top().(*QueryOrderSpec).dir = dir`; only the stack refers to the spec.
unfoldable pub set_order_dir : Step
unfolding pop_text pop_order_spec push
set_order_dir ps = do
  (dir, ps1) ← pop_text ps
  (spec, ps2) ← pop_order_spec ps1
  push (order_spec (record spec { dir = dir })) ps2

-- The tokens that Execute looks at: the text of a capture, and the actions. The actions that push
-- the text share one constructor.
pub data Token : Type 0 where
  peg_text : Text → Token
  do_set_select_op do_set_delete_op : Token
  do_set_simple_selector do_set_compound_selector do_set_function_selector : Token
  do_push do_set_namespace do_set_criteria : Token
  do_add_compound_criteria do_add_negated_criteria do_add_value_criteria : Token
  do_add_range_criteria do_add_index_criteria : Token
  do_set_order do_add_order_selector do_set_order_dir do_set_limit : Token

-- The number that was read, or 0 with the error kept.
abbrev pub keep_error : Result ℤ → ParseState → ℤ × ParseState
keep_error (ok n) ps = (n, ps)
keep_error (err e) ps = (pos 0, record ps { err = some e })
keep_error panic ps = (pos 0, ps)

-- `strconv.Atoi` reads a decimal number, or fails with an error.
module _ (atoi : Text → Result ℤ) where
  unfoldable pub add_range_criteria : Step
  unfolding pop_text push
  add_range_criteria ps = do
    (vstr, ps1) ← pop_text ps
    (op, ps2) ← pop_text ps1
    (sel, ps3) ← pop_text ps2
    let (val, ps4) = keep_error (atoi vstr) ps3
    push (criteria (QueryCriteria.range op sel val)) ps4

  unfoldable pub set_limit : Text → Step
  set_limit x ps =
      let (lim, ps') = keep_error (atoi x) ps in
      ok (record ps' { query = record (ps'.query) { limit = lim } })

  -- One round of the loop of Execute; `captured` is the variable `text`.
  unfoldable pub execute_token : Token → Text → ParseState → Result (Text × ParseState)
  execute_token (peg_text t) captured ps = ok (t, ps)
  execute_token do_set_select_op captured ps = set_select_op ps >>= λ ps'. ok (captured, ps')
  execute_token do_set_delete_op captured ps = set_delete_op ps >>= λ ps'. ok (captured, ps')
  execute_token do_set_simple_selector captured ps =
      set_simple_selector ps >>= λ ps'. ok (captured, ps')
  execute_token do_set_compound_selector captured ps =
      set_compound_selector ps >>= λ ps'. ok (captured, ps')
  execute_token do_set_function_selector captured ps =
      set_function_selector ps >>= λ ps'. ok (captured, ps')
  execute_token do_push captured ps = push (text captured) ps >>= λ ps'. ok (captured, ps')
  execute_token do_set_namespace captured ps =
      set_namespace captured ps >>= λ ps'. ok (captured, ps')
  execute_token do_set_criteria captured ps = set_criteria ps >>= λ ps'. ok (captured, ps')
  execute_token do_add_compound_criteria captured ps =
      add_compound_criteria ps >>= λ ps'. ok (captured, ps')
  execute_token do_add_negated_criteria captured ps =
      add_negated_criteria ps >>= λ ps'. ok (captured, ps')
  execute_token do_add_value_criteria captured ps =
      add_value_criteria ps >>= λ ps'. ok (captured, ps')
  execute_token do_add_range_criteria captured ps =
      add_range_criteria ps >>= λ ps'. ok (captured, ps')
  execute_token do_add_index_criteria captured ps =
      add_index_criteria ps >>= λ ps'. ok (captured, ps')
  execute_token do_set_order captured ps = set_order ps >>= λ ps'. ok (captured, ps')
  execute_token do_add_order_selector captured ps =
      add_order_selector ps >>= λ ps'. ok (captured, ps')
  execute_token do_set_order_dir captured ps = set_order_dir ps >>= λ ps'. ok (captured, ps')
  execute_token do_set_limit captured ps = set_limit captured ps >>= λ ps'. ok (captured, ps')

  unfoldable pub execute_tokens : List Token → Text → ParseState → Result (Text × ParseState)
  execute_tokens [] captured ps = ok (captured, ps)
  execute_tokens (token ∷ tokens) captured ps = do
    (captured', ps') ← execute_token token captured ps
    execute_tokens tokens captured' ps'

-- `&ParseState{query: &Query{}}`
abbrev pub initial : ParseState
initial = record {
  query = record {
    op = select;
    namespace = [];
    selector = none;
    criteria = none;
    order = none;
    limit = pos 0;
  };
  stack = [];
  err = none;
}

-- ParseQuery behind a successful parse, whose result is the list of tokens.
unfoldable pub parse_tokens : (Text → Result ℤ) → List Token → Result Query
unfolding execute_tokens
parse_tokens atoi tokens = do
  (_, ps) ← execute_tokens atoi tokens [] initial
  elim ps.err [ none ↦ ok ps.query | some e ↦ err e ]
