-- ===== src/Query/Eval/Selected.antt =====
-- The values that the selectors of the language name.
use concat.Base.{
  ◌≡◌, refl, ◌==◌, true, Text, text_eq, text_dec, codes, some, List, [], ◌∷◌, ok, contains,
  if◌then◌else◌,
}
use concat.Base.Int.{pos, int_eq}
use concat.Base.Dict.{Entries, lookup, lookup-Entries}
use concat.Query.Statement.{Statement, header}
use concat.Query.Statement.Refs.{HasBodies}
use concat.Query.Statement.Source.{source_of, statement_source-eq}
use concat.Query.Selector.{
  Scalar, int, int64, string, stmt_ptr, body_ptr, scalar_eq, StatementSelector, simple_selectors,
}

-- The value that a selector of the language names.
unfoldable pub selected : Text → Statement → Scalar
selected sel s =
    if sel == codes "*"
    then stmt_ptr (header s).addr
    else if sel == codes "body"
    then body_ptr (header s).body_addr
    else if sel == codes "id"
    then string (header s).id
    else if sel == codes "publisher"
    then string (header s).publisher
    else if sel == codes "namespace"
    then string (header s).namespace
    else if sel == codes "source"
    then string (source_of s)
    else if sel == codes "timestamp"
    then int64 (header s).timestamp
    else int (pos 0)

abbrev pub selector_names : List Text
selector_names =
    codes "*"
    ∷ codes "body"
    ∷ codes "id"
    ∷ codes "publisher"
    ∷ codes "namespace"
    ∷ codes "source"
    ∷ codes "timestamp"
    ∷ codes "counter"
    ∷ []

selector-Entries :
    Entries
      (λ sel getf. (s : Statement) → HasBodies s → getf s ≡ ok (selected sel s))
      simple_selectors
unfolding text_dec selected
selector-Entries = (
  λ s wf. refl,
  (
    λ s wf. refl,
    (
      λ s wf. refl,
      (
        λ s wf. refl,
        (λ s wf. refl, (λ s wf. rw (statement_source-eq s wf), (λ s wf. refl, (λ s wf. refl, tt)))),
      ),
    ),
  ),
)

pub find_selector :
    (sel : Text)
    → contains selector_names sel ≡ true
    → (getf : StatementSelector) × (lookup simple_selectors sel ≡ some getf)
      × ((s : Statement) → HasBodies s → getf s ≡ ok (selected sel s))
find_selector sel h =
    lookup-Entries (λ sel getf. (s : Statement) → HasBodies s → getf s ≡ ok (selected sel s))
      simple_selectors sel selector-Entries h
