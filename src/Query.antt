-- ===== src/Query.antt =====
-- mc/query/query.go: the parsed query.
pub mod Statement
pub mod Filter
pub mod Parse
pub mod Selector
pub mod ResultSet
pub mod Eval
pub mod Compile
use concat.Base.{Text, ◌==◌, text_eq, Bool, true, false, Option, none, some, List, [], ◌∷◌}
use concat.Base.Int.{ℤ}

-- The constants OpSelect and OpDelete.
pub data Op : Type 0 where
  select delete : Op

-- FunctionSelector
pub record FunctionSelector : Type 0 where
  pub op : Text
  pub sel : Text

-- The interface QuerySelector with its three implementations.
pub data QuerySelector : Type 0 where
  simple : Text → QuerySelector
  compound : List Text → QuerySelector
  function : FunctionSelector → QuerySelector

-- The interface QueryCriteria with its five implementations.
pub data QueryCriteria : Type 0 where
  value : Text → Text → Text → QueryCriteria
  range : Text → Text → ℤ → QueryCriteria
  index : Text → Text → QueryCriteria
  compound : Text → QueryCriteria → QueryCriteria → QueryCriteria
  negated : QueryCriteria → QueryCriteria

-- QueryOrderSpec; an unset `dir` is the empty string.
pub record QueryOrderSpec : Type 0 where
  pub sel : Text
  pub dir : Text

-- Query. An interface or slice that is nil is `none`.
pub record Query : Type 0 where
  pub op : Op
  pub namespace : Text
  pub selector : Option QuerySelector
  pub criteria : Option QueryCriteria
  pub order : Option (List QueryOrderSpec)
  pub limit : ℤ

unfoldable pub with_limit : Query → ℤ → Query
with_limit q limit = record q { limit = limit }

is_simple_selector : Option QuerySelector → Text → Bool
is_simple_selector (some (QuerySelector.simple ssel)) sel = sel == ssel
is_simple_selector _ sel = false

unfoldable pub is_simple_select : Query → Text → Bool
unfolding is_simple_selector
is_simple_select q sel = elim q.op [ select ↦ is_simple_selector q.selector sel | delete ↦ false ]

unfoldable pub with_simple_select : Query → Text → Query
with_simple_select q sel = record q { selector = some (QuerySelector.simple sel) }
