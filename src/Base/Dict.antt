-- ===== src/Base/Dict.antt =====
-- Go maps as association lists, at most one entry to a key. A `range` over a map visits the
-- entries in an order that Go leaves open; the theorems speak of lookups and membership only.
use mathlib.Core.Path.{◌≡◌, refl}
use mathlib.Core.Bool.{Bool, true, false, false≢true, ◌||◌}
use mathlib.Core.Option.{Option, none, some}
use mathlib.Core.List.{List, [], ◌∷◌, ◌++◌}
use mathlib.Core.Logic.{◌≢◌}
use native.Mathlib.Omega.{arith}
use concat.Base.Tests.{if◌then◌else◌}
use concat.Base.Equality.{Eq, ◌==◌}
use concat.Base.Lists.{contains}

abbrev pub Dict {ℓ κ} : Type ℓ → Type κ → Type (ℓ ⊔ κ)
Dict K V = List (K × V)

-- The entry, unless it passes a test.
abbrev pub unless {ℓ} : {V : Type ℓ} → (V → Bool) → Option V → Option V
unless p none = none
unless p (some v) = if p v then none else some v

module _ {ℓ κ} {K : Type ℓ} {V : Type κ} ⦃e : Eq K⦄ where
  -- `m[k]`, `none` for a missing key
  unfoldable pub lookup : Dict K V → K → Option V
  lookup [] k = none
  lookup ((j, v) ∷ m) k = if k == j then some v else lookup m k

  -- `m[k] = v`
  unfoldable pub put : Dict K V → K → V → Dict K V
  put [] k v = (k, v) ∷ []
  put ((j, w) ∷ m) k v = if k == j then (k, v) ∷ m else (j, w) ∷ put m k v

  -- `delete(m, k)`
  unfoldable pub remove : Dict K V → K → Dict K V
  remove [] k = []
  remove ((j, w) ∷ m) k = let rest = remove m k in if k == j then rest else (j, w) ∷ rest

  -- `for k, v := range m { if p(v) { delete(m, k) } }`
  unfoldable pub remove_if : (V → Bool) → Dict K V → Dict K V
  remove_if p [] = []
  remove_if p ((j, w) ∷ m) = let rest = remove_if p m in if p w then rest else (j, w) ∷ rest

  abbrev pub NodupKeys : Dict K V → Type κ
  NodupKeys [] = Unit
  NodupKeys ((k, _) ∷ m) = (lookup m k ≡ none) × NodupKeys m

  pub lookup-put :
      (m : Dict K V) (k : K) (v : V) (j : K)
      → lookup (put m k v) j ≡ (if j == k then some v else lookup m j)
  unfolding lookup put
  lookup-put [] k v j = refl
  lookup-put ((i, w) ∷ m) k v j = ground (arith, lookup-put m k v j)

  pub lookup-remove :
      (m : Dict K V) (k j : K) → lookup (remove m k) j ≡ (if j == k then none else lookup m j)
  unfolding lookup remove
  lookup-remove [] k j = ground arith
  lookup-remove ((i, w) ∷ m) k j = ground (arith, lookup-remove m k j)

  pub lookup-remove_if :
      (p : V → Bool) (m : Dict K V) (j : K)
      → NodupKeys m
      → lookup (remove_if p m) j ≡ unless p (lookup m j)
  unfolding lookup remove_if
  lookup-remove_if p [] j u = refl
  lookup-remove_if p ((i, w) ∷ m) j (fresh, u) = ground (arith, lookup-remove_if p m j u)

  pub put-NodupKeys : (m : Dict K V) (k : K) (v : V) → NodupKeys m → NodupKeys (put m k v)
  unfolding put lookup
  put-NodupKeys [] k v u = (refl, tt)
  put-NodupKeys ((j, w) ∷ m) k v (fresh, u) =
      ground (arith, put-NodupKeys m k v u, lookup-put m k v j)

  pub remove-NodupKeys : (m : Dict K V) (k : K) → NodupKeys m → NodupKeys (remove m k)
  unfolding remove
  remove-NodupKeys [] k u = tt
  remove-NodupKeys ((j, w) ∷ m) k (fresh, u) =
      ground (arith, remove-NodupKeys m k u, lookup-remove m k j)

  pub remove_if-NodupKeys : (p : V → Bool) (m : Dict K V) → NodupKeys m → NodupKeys (remove_if p m)
  unfolding remove_if
  remove_if-NodupKeys p [] u = tt
  remove_if-NodupKeys p ((j, w) ∷ m) (fresh, u) =
      ground (arith, remove_if-NodupKeys p m u, lookup-remove_if p m j u)

  abbrev pub keys : Dict K V → List K
  keys [] = []
  keys ((k, _) ∷ m) = k ∷ keys m

  -- Every entry is in a relation.
  abbrev pub Entries {μ} : (K → V → Type μ) → Dict K V → Type μ
  Entries R [] = Unit
  Entries R ((k, v) ∷ m) = R k v × Entries R m

  -- What holds of every entry of a table holds of an entry that is found in it.
  pub lookup-Entries {μ} :
      (R : K → V → Type μ) (m : Dict K V) (k : K)
      → Entries R m
      → contains (keys m) k ≡ true
      → (v : V) × (lookup m k ≡ some v) × R k v
  unfolding lookup
  lookup-Entries R [] k h c = absurd (false≢true c)
  lookup-Entries R ((j, v) ∷ m) k (r, h) c = elim (e.dec k j) [
    | yes p ↦ (v, ground arith, rw p r)
    | no n ↦ let (w, found, s) = lookup-Entries R m k h (ground arith) in (w, ground arith, s)
  ]

  pub lookup_missing : (m : Dict K V) (k : K) → contains (keys m) k ≡ false → lookup m k ≡ none
  unfolding lookup
  lookup_missing [] k c = refl
  lookup_missing ((j, v) ∷ m) k c = ground (arith, lookup_missing m k)

  pub contains-keys-put :
      (m : Dict K V) (k : K) (v : V) (j : K)
      → contains (keys (put m k v)) j ≡ (contains (keys m) j || j == k)
  unfolding put
  contains-keys-put [] k v j = ground arith
  contains-keys-put ((i, w) ∷ m) k v j = ground (arith, contains-keys-put m k v j)

  pub put_new : (m : Dict K V) (k : K) (v : V) → lookup m k ≡ none → put m k v ≡ m ++ ((k, v) ∷ [])
  unfolding put lookup
  put_new [] k v h = refl
  put_new ((j, w) ∷ m) k v h = ground (arith, put_new m k v)

  -- A key of the second part of a map without doubles is not in the first.
  pub NodupKeys-append :
      (m : Dict K V) (k : K) (v : V) (n : Dict K V)
      → NodupKeys (m ++ ((k, v) ∷ n))
      → lookup m k ≡ none
  unfolding lookup
  NodupKeys-append [] k v n u = refl
  NodupKeys-append ((j, w) ∷ m) k v n (fresh, u) =
      ground (arith, NodupKeys-append m k v n u, lookup_middle m k v n, fresh)
    where
      lookup_middle :
          (m : Dict K V) (k : K) (v : V) (n : Dict K V) → lookup (m ++ ((k, v) ∷ n)) k ≢ none
      lookup_middle [] k v n e = ground arith
      lookup_middle ((i, x) ∷ m) k v n e = ground (arith, lookup_middle m k v n)
