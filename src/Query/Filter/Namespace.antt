-- ===== src/Query/Filter/Namespace.antt =====
-- The namespace filter, against the three forms of a namespace in the query language.
use concat.Base.{
  ℕ, ◌≡◌, ◌≢◌, refl, ap, ◌==◌, Bool, true, Text, text_eq, nat_eq, codes, some, [], ◌∷◌, ◌++◌,
  Result, ok, ◌>>=◌, arith, has_prefix, last_byte, drop_last, drop_last_two,
}
use concat.Query.{Query}
use concat.Query.Statement.{Statement, header}
use concat.Query.Filter.{make_namespace_filter}

-- `FROM *`, `FROM prefix.*` and `FROM namespace`.
pub data Pattern : Type 0 where
  everything : Pattern
  family : Text → Pattern
  exactly : Text → Pattern

abbrev pub pattern_text : Pattern → Text
pattern_text everything = codes "*"
pattern_text (family p) = p ++ codes ".*"
pattern_text (exactly ns) = ns

-- A plain namespace is not empty and does not end in a star.
abbrev pub IsPattern : Pattern → Type 0
IsPattern everything = Unit
IsPattern (family p) = Unit
IsPattern (exactly ns) = (c : ℕ) × (last_byte ns ≡ some c) × (c ≢ b'*')

unfoldable pub matches_pattern : Pattern → Statement → Bool
matches_pattern everything s = true
matches_pattern (family p) s = has_prefix (header s).namespace p
matches_pattern (exactly ns) s = (header s).namespace == ns

last_byte-family : (p : Text) → last_byte (p ++ codes ".*") ≡ some b'*'
unfolding last_byte
last_byte-family [] = refl
last_byte-family (c ∷ []) = refl
last_byte-family (c ∷ d ∷ p) = last_byte-family (d ∷ p)

pub drop_last-family : (p : Text) → drop_last (p ++ codes ".*") ≡ some (p ++ codes ".")
unfolding drop_last
drop_last-family [] = refl
drop_last-family (c ∷ []) = refl
drop_last-family (c ∷ d ∷ p) = rw (drop_last-family (d ∷ p), drop_last)

pub drop_last-dot : (p : Text) → drop_last (p ++ codes ".") ≡ some p
unfolding drop_last
drop_last-dot [] = refl
drop_last-dot (c ∷ []) = refl
drop_last-dot (c ∷ d ∷ p) = rw (drop_last-dot (d ∷ p), drop_last)

pub family_not_star : (p : Text) → p ++ codes ".*" ≢ codes "*"
family_not_star [] e = ground arith
family_not_star (c ∷ []) e = ground arith
family_not_star (c ∷ d ∷ p) e = ground arith

plain_not_star : (ns : Text) (c : ℕ) → last_byte ns ≡ some c → c ≢ b'*' → ns ≢ codes "*"
unfolding last_byte
plain_not_star ns c l n e = ground (arith, ap last_byte e)

-- Making the namespace filter of a query and applying it.
abbrev pub run_namespace : Query → Statement → Result Bool
run_namespace q stmt = make_namespace_filter q >>= λ filter. filter stmt

-- The filter of a namespace in one of the three forms never fails or panics. It admits every
-- statement, those whose namespace begins with the prefix, or those of the one namespace.
pub run_namespace-matches_pattern :
    (q : Query) (pat : Pattern) (s : Statement)
    → IsPattern pat
    → q.namespace ≡ pattern_text pat
    → run_namespace q s ≡ ok (matches_pattern pat s)
unfolding make_namespace_filter matches_pattern drop_last_two
run_namespace-matches_pattern q everything s wf e = ground arith
run_namespace-matches_pattern q (family p) s wf e =
    rw e
      (ground (arith, family_not_star p, last_byte-family p, drop_last-family p, drop_last-dot p))
run_namespace-matches_pattern q (exactly ns) s (c, l, n) e =
    let plain = plain_not_star ns c l n in ground (arith, plain)
