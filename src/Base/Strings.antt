-- ===== src/Base/Strings.antt =====
-- Go strings as lists of bytes: literals, and what the source uses of package strings.
use Prim.Native.Nat.{ℕ}
use Prim.Native.Char.{code}
use Prim.Native.String.{String}
use mathlib.Core.Path.{◌≡◌, refl}
use mathlib.Core.Bool.{Bool, true, false, ◌&&◌}
use mathlib.Core.Option.{Option, none, some}
use mathlib.Core.List.{List, [], ◌∷◌, ◌++◌}
use native.Mathlib.Omega.{arith}
use concat.Base.Tests.{if◌then◌else◌}
use concat.Base.Equality.{◌==◌, Text, text_eq, nat_eq}

-- The bytes of an ASCII literal.
abbrev pub codes : String → Text
codes String.[] = []
codes (String.◌∷◌ c s) = code c ∷ codes s

-- strings.HasPrefix
unfoldable pub has_prefix : Text → Text → Bool
has_prefix s [] = true
has_prefix [] (p ∷ ps) = false
has_prefix (c ∷ s) (p ∷ ps) = c == p && has_prefix s ps

-- strings.HasSuffix
unfoldable pub has_suffix : Text → Text → Bool
has_suffix [] t = t == []
has_suffix (c ∷ s) t = if (c ∷ s) == t then true else has_suffix s t

-- `s[len(s)-1]`, which panics on the empty string.
unfoldable pub last_byte : Text → Option ℕ
last_byte [] = none
last_byte (c ∷ []) = some c
last_byte (c ∷ d ∷ s) = last_byte (d ∷ s)

-- `s[:len(s)-1]`, which panics on the empty string.
unfoldable pub drop_last : Text → Option Text
drop_last [] = none
drop_last (c ∷ []) = some []
drop_last (c ∷ d ∷ s) = elim (drop_last (d ∷ s)) [ none ↦ none | some t ↦ some (c ∷ t) ]

-- `s[:len(s)-2]`, which panics on a string of fewer than two bytes.
unfoldable pub drop_last_two : Text → Option Text
unfolding drop_last
drop_last_two s = elim (drop_last s) [ none ↦ none | some t ↦ drop_last t ]

pub has_prefix-append : (p t : Text) → has_prefix (p ++ t) p ≡ true
unfolding has_prefix
has_prefix-append [] t = refl
has_prefix-append (c ∷ p) t = ground (arith, has_prefix-append p t)

-- A prefix test that succeeds names the rest.
pub has_prefix→append : (s p : Text) → has_prefix s p ≡ true → (t : Text) × (s ≡ p ++ t)
unfolding has_prefix
has_prefix→append s [] h = (s, refl)
has_prefix→append [] (c ∷ p) h = absurd (mathlib.Core.Bool.false≢true h)
has_prefix→append (d ∷ s) (c ∷ p) h =
    let same : d ≡ c = ground arith in
    let rest = has_prefix→append s p (ground arith) in (rest.0, ground (arith, same, rest.1))

-- strings.Join
unfoldable pub join : List Text → Text → Text
join [] sep = []
join (s ∷ []) sep = s
join (s ∷ t ∷ rest) sep = s ++ (sep ++ join (t ∷ rest) sep)
