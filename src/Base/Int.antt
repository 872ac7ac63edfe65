-- ===== src/Base/Int.antt =====
-- Signed integers, for Go's int and int64 where the program only stores and compares them.
use Prim.Native.Nat.{ℕ, ◌≤◌}
use mathlib.Core.Path.{◌≡◌}
use mathlib.Core.Bool.{Bool, true, false}
use native.Mathlib.Omega.{arith}
use native.Mathlib.Decide.{ℕ_discrete}
use concat.Base.Tests.{ltb, leb}
use concat.Base.Equality.{Eq}

-- `negsuc n` is -(n + 1).
pub data ℤ : Type 0 where
  pos : ℕ → ℤ
  negsuc : ℕ → ℤ

unfoldable pub int_dec : Discrete ℤ
unfolding ℕ_discrete
int_dec = hlevel ℕ_discrete

instance abbrev pub int_eq : Eq ℤ
int_eq = record { dec = int_dec }

-- `a < b`
abbrev pub ltb_ℤ : ℤ → ℤ → Bool
ltb_ℤ (pos a) (pos b) = ltb a b
ltb_ℤ (pos a) (negsuc b) = false
ltb_ℤ (negsuc a) (pos b) = true
ltb_ℤ (negsuc a) (negsuc b) = ltb b a

-- `a <= b`
abbrev pub leb_ℤ : ℤ → ℤ → Bool
leb_ℤ (pos a) (pos b) = leb a b
leb_ℤ (pos a) (negsuc b) = false
leb_ℤ (negsuc a) (pos b) = true
leb_ℤ (negsuc a) (negsuc b) = leb b a

-- The order on integers.
abbrev pub ◌≤ℤ◌ : ℤ → ℤ → Type 0
◌≤ℤ◌ (pos a) (pos b) = a ≤ b
◌≤ℤ◌ (pos a) (negsuc b) = ⊥
◌≤ℤ◌ (negsuc a) (pos b) = Unit
◌≤ℤ◌ (negsuc a) (negsuc b) = b ≤ a

infix 50 ◌≤ℤ◌
pub ≤ℤ_refl : (a : ℤ) → a ≤ℤ a
≤ℤ_refl (pos a) = omega arith
≤ℤ_refl (negsuc a) = omega arith

pub ≤ℤ_trans : (a b c : ℤ) → a ≤ℤ b → b ≤ℤ c → a ≤ℤ c
≤ℤ_trans (pos a) (pos b) (pos c) h k = omega arith
≤ℤ_trans (pos a) (pos b) (negsuc c) h k = k
≤ℤ_trans (pos a) (negsuc b) c h k = absurd h
≤ℤ_trans (negsuc a) (pos b) (pos c) h k = tt
≤ℤ_trans (negsuc a) (pos b) (negsuc c) h k = absurd k
≤ℤ_trans (negsuc a) (negsuc b) (pos c) h k = tt
≤ℤ_trans (negsuc a) (negsuc b) (negsuc c) h k = omega arith

-- The strict test fails exactly where the order holds the other way round.
pub not_lt→≤ℤ : (a b : ℤ) → ltb_ℤ a b ≡ false → b ≤ℤ a
not_lt→≤ℤ (pos a) (pos b) h = ground arith
not_lt→≤ℤ (pos a) (negsuc b) h = tt
not_lt→≤ℤ (negsuc a) (pos b) h = absurd (mathlib.Core.Bool.true≢false h)
not_lt→≤ℤ (negsuc a) (negsuc b) h = ground arith

pub lt→≤ℤ : (a b : ℤ) → ltb_ℤ a b ≡ true → a ≤ℤ b
lt→≤ℤ (pos a) (pos b) h = ground arith
lt→≤ℤ (pos a) (negsuc b) h = absurd (mathlib.Core.Bool.false≢true h)
lt→≤ℤ (negsuc a) (pos b) h = tt
lt→≤ℤ (negsuc a) (negsuc b) h = ground arith
