-- ===== src/Query/Compile/Columns.antt =====
-- The columns that a compiled query selects, against the pointers that its row selector scans into.
use concat.Base.{
  Bool-cases, inl, inr, true, false, map, ◌++◌, ◌||◌, ◌==◌, if◌then◌else◌, text_dec, ℕ, suc, ◌≡◌,
  refl, sym, ◌∙◌, ap, Bool, Text, text_eq, codes, Option, none, some, List, [], ◌∷◌, Result, ok,
  err, panic, ◌>>=◌, >>=-eq-ok, arith, length, join,
}
use concat.Base.Dict.{lookup}
use concat.Query.{QuerySelector, FunctionSelector}
use concat.Query.Selector.{check_function_selector}
use concat.Query.Compile.Clauses.{
  disambig_selector, selector_column, selector_column_simple, selector_column_compound,
  selector_column_fun, compound_columns, compile_query_columns,
}
use concat.Query.Compile.Rows.{
  SimpleRowSelector, RowSelector, compound_selectors, compile_query_row_selector, pointers,
}

-- The column of a selector without its table: the data of a statement, or a column of its own.
abbrev pub plain_column : Text → Text
plain_column sel = if (sel == codes "*") || (sel == codes "body") then codes "data" else sel

-- Whether the values of a column are selected once each.
abbrev pub has_duplicates : Text → Bool
has_duplicates sel =
    (sel == codes "namespace") || ((sel == codes "publisher") || (sel == codes "source"))

-- The column of a selector that stands alone.
abbrev pub single_column : Text → Text
single_column sel = if has_duplicates sel then codes "DISTINCT " ++ sel else plain_column sel

-- The argument of a function: statements are counted as ones.
abbrev pub argument_column : Text → Text
argument_column sel =
    if (sel == codes "*") || (sel == codes "body") then codes "1" else single_column sel

-- Where tables are joined, the id is that of Envelope.
abbrev pub in_table : Bool → Text → Text
in_table false col = col
in_table true col = if col == codes "id" then codes "Envelope.id" else col

-- The columns of a selector.
abbrev pub columns_of : Option QuerySelector → Bool → List Text
columns_of none joined = []
columns_of (some (QuerySelector.simple sel)) joined = in_table joined (single_column sel) ∷ []
columns_of (some (QuerySelector.compound [])) joined = []
columns_of (some (QuerySelector.compound (sel ∷ []))) joined =
    in_table joined (single_column sel) ∷ []
columns_of (some (QuerySelector.compound (a ∷ b ∷ sel))) joined =
    map (λ s. in_table joined (plain_column s)) (a ∷ b ∷ sel)
columns_of (some (QuerySelector.function f)) joined =
    (f.op ++ (codes "(" ++ (in_table joined (argument_column f.sel) ++ codes ")"))) ∷ []

-- The text is that of the selector's columns, and they are as many as the pointers.
abbrev pub Fits : Option QuerySelector → Bool → Text → RowSelector → Type 0
Fits sel joined cols rs =
    (cols ≡ join (columns_of sel joined) (codes ", "))
    × (length (columns_of sel joined) ≡ length (pointers rs))

disambig_selector-in_table :
    (col : Text) (joined : Bool) → disambig_selector col joined ≡ in_table joined col
unfolding disambig_selector
disambig_selector-in_table col true = refl
disambig_selector-in_table col false = refl

simple_column : (sel : Text) → selector_column sel selector_column_simple ≡ single_column sel
unfolding lookup text_dec
simple_column sel = ground arith

compound_column : (sel : Text) → selector_column sel selector_column_compound ≡ plain_column sel
unfolding lookup text_dec
compound_column sel = ground arith

fun_column : (sel : Text) → selector_column sel selector_column_fun ≡ argument_column sel
unfolding lookup text_dec
fun_column sel = ground arith

compound_selectors-length :
    (message : Text) (sel : List Text) (srs : List SimpleRowSelector)
    → compound_selectors message sel ≡ ok srs
    → length srs ≡ length sel
unfolding compound_selectors
compound_selectors-length message [] srs e = ground arith
compound_selectors-length message (s ∷ sel) srs e =
    cons_length (compound_selectors message sel) srs (compound_selectors-length message sel) _ e
  where
    cons_length :
        {n : ℕ} (r : Result (List SimpleRowSelector)) (srs : List SimpleRowSelector)
        → ((rest : List SimpleRowSelector) → r ≡ ok rest → length rest ≡ n)
        → (m : Result SimpleRowSelector) → (m >>= λ make. r >>= λ rest. ok (make ∷ rest)) ≡ ok srs
        → length srs ≡ suc n
    cons_length (ok rest) srs h (ok make) e = ground (arith, h rest refl)
    cons_length (err x) srs h (ok make) e = ground arith
    cons_length panic srs h (ok make) e = ground arith
    cons_length r srs h (err x) e = ground arith
    cons_length r srs h panic e = ground arith

compound_columns-length :
    (sel : List Text) (joined : Bool) → length (compound_columns sel joined) ≡ length sel
unfolding compound_columns
compound_columns-length [] joined = refl
compound_columns-length (s ∷ sel) joined = ap suc (compound_columns-length sel joined)

-- The row selector of a compound selector has a pointer for each of its names.
compound-length :
    (sel : List Text) (rs : RowSelector)
    → compile_query_row_selector (some (QuerySelector.compound sel)) ≡ ok rs
    → length (pointers rs) ≡ length sel
unfolding compile_query_row_selector
compound-length sel rs e =
    let (srs, made, is) = >>=-eq-ok (compound_selectors _ sel) _ e in
    let fields : ok (RowSelector.compound sel srs) ≡ ok rs = is in
    ground (arith, compound_selectors-length _ sel srs made)

single-length :
    (m : Result SimpleRowSelector) (rs : RowSelector)
    → (m >>= λ make. ok (RowSelector.simple make)) ≡ ok rs
    → length (pointers rs) ≡ 1
single-length (ok sr) rs e = ground arith
single-length (err x) rs e = ground arith
single-length panic rs e = ground arith

map-in_table :
    (joined : Bool) (sel : List Text)
    → compound_columns sel joined ≡ map (λ s. in_table joined (plain_column s)) sel
unfolding compound_columns
map-in_table joined [] = refl
map-in_table joined (s ∷ sel) =
    rw
      (
        disambig_selector-in_table (selector_column s selector_column_compound) joined,
        compound_column s,
      )
      (ap (λ r. in_table joined (plain_column s) ∷ r) (map-in_table joined sel))

single_text :
    (joined : Bool) (sel cols : Text)
    → Result.ok (disambig_selector (selector_column sel selector_column_simple) joined) ≡ ok cols
    → cols ≡ in_table joined (single_column sel)
single_text joined sel cols e =
    let is : disambig_selector (selector_column sel selector_column_simple) joined ≡ cols =
      ground arith in
    sym is
    ∙ disambig_selector-in_table (selector_column sel selector_column_simple) joined
    ∙ ap (in_table joined) (simple_column sel)

function_text :
    (joined : Bool) (f : FunctionSelector) (cols : Text)
    → compile_query_columns (some (QuerySelector.function f)) joined ≡ ok cols
    → cols ≡ f.op ++ (codes "(" ++ (in_table joined (argument_column f.sel) ++ codes ")"))
unfolding compile_query_columns
function_text joined f cols e = elim (Bool-cases (check_function_selector f)) [
  | inl allowed ↦ ground (
    arith,
    disambig_selector-in_table (selector_column f.sel selector_column_fun) joined
        ∙ ap (in_table joined) (fun_column f.sel),
  )
  | inr refused ↦ ground arith
]

-- Where a query's columns and its row selector both compile, the text is that of the columns of the
-- selector, set apart by a comma and a space, and the columns are as many as the pointers that the
-- row selector hands to the scan of a row. A column is the data for the selectors `*` and `body` (1
-- where it is counted) and else of the selector's name; it is DISTINCT for a namespace, publisher or
-- source that stands alone or in a function; and an id is that of Envelope where tables are joined.
pub compile_query_columns-Fits :
    (sel : Option QuerySelector) (joined : Bool) (cols : Text) (rs : RowSelector)
    → compile_query_columns sel joined ≡ ok cols
    → compile_query_row_selector sel ≡ ok rs
    → Fits sel joined cols rs
unfolding compile_query_columns compile_query_row_selector join
compile_query_columns-Fits none joined cols rs ec er = ground arith
compile_query_columns-Fits (some (QuerySelector.simple sel)) joined cols rs ec er =
    (single_text joined sel cols ec, sym (single-length _ rs er))
compile_query_columns-Fits (some (QuerySelector.function sel)) joined cols rs ec er =
    (function_text joined sel cols ec, sym (single-length _ rs er))
compile_query_columns-Fits (some (QuerySelector.compound [])) joined cols rs ec er =
    (ground arith, sym (compound-length [] rs er))
compile_query_columns-Fits (some (QuerySelector.compound (a ∷ []))) joined cols rs ec er =
    (single_text joined a cols ec, sym (compound-length (a ∷ []) rs er))
compile_query_columns-Fits (some (QuerySelector.compound (a ∷ b ∷ sel))) joined cols rs ec er =
    let same = map-in_table joined (a ∷ b ∷ sel) in
    (
      ground (arith, ec, ap (λ l. join l (codes ", ")) same),
      ap length (sym same)
          ∙ compound_columns-length (a ∷ b ∷ sel) joined
          ∙ sym (compound-length (a ∷ b ∷ sel) rs er),
    )
