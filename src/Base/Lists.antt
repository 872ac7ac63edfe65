-- ===== src/Base/Lists.antt =====
-- Lists measured by native numbers, and searched by decided equality.
use Prim.Native.Nat.{ℕ, zero, suc, ◌+◌, ◌≤◌}
use mathlib.Core.Path.{◌≡◌, refl, sym, subst}
use mathlib.Core.Logic.{◌⊎◌, inl, inr}
use mathlib.Core.Bool.{Bool, true, false, ◌||◌, ◌&&◌, not}
use mathlib.Core.List.{List, [], ◌∷◌, ◌++◌}
use native.Mathlib.Omega.{arith}
use concat.Base.Tests.{if◌then◌else◌}
use concat.Base.Equality.{Eq, ◌==◌}

module _ {ℓ} {A : Type ℓ} where
  abbrev pub length : List A → ℕ
  length [] = 0
  length (x ∷ xs) = suc (length xs)

  pub length-append : (xs ys : List A) → length (xs ++ ys) ≡ length xs + length ys
  length-append [] ys = omega arith
  length-append (x ∷ xs) ys = omega (arith, length-append xs ys)

  abbrev pub take : ℕ → List A → List A
  take zero xs = []
  take (suc n) [] = []
  take (suc n) (x ∷ xs) = x ∷ take n xs

  pub length-take-le : (n : ℕ) (xs : List A) → length (take n xs) ≤ n
  length-take-le zero xs = omega arith
  length-take-le (suc n) [] = omega arith
  length-take-le (suc n) (x ∷ xs) = omega (arith, length-take-le n xs)

  -- The items that pass a test, in order.
  abbrev pub keep : (A → Bool) → List A → List A
  keep p [] = []
  keep p (x ∷ xs) = if p x then x ∷ keep p xs else keep p xs

  -- Some item passes a test.
  abbrev pub any : (A → Bool) → List A → Bool
  any p [] = false
  any p (x ∷ xs) = p x || any p xs

  -- Every item has a property.
  abbrev pub All {κ} : (A → Type κ) → List A → Type κ
  All P [] = Unit
  All P (x ∷ xs) = P x × All P xs

  pub All-append_one {κ} :
      (P : A → Type κ) (xs : List A) (x : A) → All P xs → P x → All P (xs ++ (x ∷ []))
  All-append_one P [] x a p = (p, tt)
  All-append_one P (y ∷ xs) x (q, a) p = (q, All-append_one P xs x a p)

  pub All-weaken {κ μ} :
      {P : A → Type κ} {Q : A → Type μ}
      → ((x : A) → P x → Q x)
      → (xs : List A) → All P xs
      → All Q xs
  All-weaken f [] h = tt
  All-weaken f (x ∷ xs) (p, h) = (f x p, All-weaken f xs h)

module _ {A : Type 0} where
  -- Membership that keeps its witness, for types whose equality need not be decided.
  abbrev pub In : A → List A → Type 0
  In a [] = ⊥
  In a (x ∷ xs) = (a ≡ x) ⊎ In a xs

  pub In-keep : (p : A → Bool) (a : A) (xs : List A) → In a xs → p a ≡ true → In a (keep p xs)
  In-keep p a [] h t = h
  In-keep p a (x ∷ xs) (inl e) t = ground (arith, e)
  In-keep p a (x ∷ xs) (inr h) t = ground (arith, In-keep p a xs h t)

  pub keep-In : (p : A → Bool) (a : A) (xs : List A) → In a (keep p xs) → In a xs × (p a ≡ true)
  keep-In p a [] h = absurd h
  keep-In p a (x ∷ xs) h = ground (arith, keep-In p a xs)

module _ {ℓ} {A : Type ℓ} ⦃e : Eq A⦄ where
  abbrev pub contains : List A → A → Bool
  contains [] a = false
  contains (x ∷ xs) a = a == x || contains xs a

  pub contains-append :
      (xs ys : List A) (a : A) → contains (xs ++ ys) a ≡ (contains xs a || contains ys a)
  contains-append [] ys a = refl
  contains-append (x ∷ xs) ys a = ground (arith, contains-append xs ys a)

  pub contains-keep :
      (p : A → Bool) (xs : List A) (a : A) → contains (keep p xs) a ≡ (contains xs a && p a)
  contains-keep p [] a = refl
  contains-keep p (x ∷ xs) a = ground (arith, contains-keep p xs a)

  -- No item stands twice.
  abbrev pub Nodup : List A → Type 0
  Nodup [] = Unit
  Nodup (x ∷ xs) = (contains xs x ≡ false) × Nodup xs

  -- `set[a] = true` of a Go map used as a set; the list holds the keys in the order of insertion.
  abbrev pub insert : List A → A → List A
  insert xs a = if contains xs a then xs else xs ++ (a ∷ [])

  pub contains-insert :
      (xs : List A) (a b : A) → contains (insert xs a) b ≡ (contains xs b || b == a)
  contains-insert xs a b = ground (arith, contains-append xs (a ∷ []) b)

  pub Nodup-append-one :
      (xs : List A) (a : A) → Nodup xs → contains xs a ≡ false → Nodup (xs ++ (a ∷ []))
  Nodup-append-one [] a u n = (refl, tt)
  Nodup-append-one (x ∷ xs) a (fresh, u) n =
      ground (arith, Nodup-append-one xs a u, contains-append xs (a ∷ []) x)

  pub Nodup-insert : (xs : List A) (a : A) → Nodup xs → Nodup (insert xs a)
  Nodup-insert xs a u = ground (arith, Nodup-append-one xs a u)

  -- The distinct items, each where it first stands.
  abbrev pub dedup : List A → List A
  dedup [] = []
  dedup (x ∷ xs) = x ∷ keep (λ y. not (y == x)) (dedup xs)

module _ {A : Type 0} ⦃eq : Eq A⦄ where
  All-keep_ne :
      (P : A → Type 0) (a : A) (xs : List A) → P a → All P (keep (λ y. not (y == a)) xs) → All P xs
  All-keep_ne P a [] p h = tt
  All-keep_ne P a (x ∷ xs) p h = elim (eq.dec x a) [
    | yes same ↦
        let test : (x == a) ≡ true = ground arith in
        (subst P (sym same) p, All-keep_ne P a xs p (rw test at h))
    | no n ↦
        let test : (x == a) ≡ false = ground arith in
        let (q, rest) = (let g : P x × All P (keep (λ y. not (y == a)) xs) = rw test at h in g) in
        (q, All-keep_ne P a xs p rest)
  ]

  pub All-dedup : (P : A → Type 0) (xs : List A) → All P (dedup xs) → All P xs
  All-dedup P [] h = tt
  All-dedup P (x ∷ xs) (p, h) = (p, All-dedup P xs (All-keep_ne P x (dedup xs) p h))

  pub dedup-In : (a : A) (xs : List A) → In a (dedup xs) → In a xs
  dedup-In a [] h = h
  dedup-In a (x ∷ xs) (inl e) = inl e
  dedup-In a (x ∷ xs) (inr h) = inr (dedup-In a xs (keep-In _ a (dedup xs) h).0)
