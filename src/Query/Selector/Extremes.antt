-- ===== src/Query/Selector/Extremes.antt =====
-- MIN and MAX.
use concat.Base.{◌≡◌, refl, List, [], ◌∷◌, ok, In, All, inl, inr, ◌⊎◌, Bool-cases}
use concat.Base.Int.{ℤ, ltb_ℤ, ◌≤ℤ◌, ≤ℤ_refl, ≤ℤ_trans, not_lt→≤ℤ, lt→≤ℤ}
use concat.Query.Selector.{
  Scalar, int64, min_loop, max_loop, min_function_selector, max_function_selector,
}

abbrev pub timestamps : List ℤ → List Scalar
timestamps [] = []
timestamps (t ∷ ts) = int64 t ∷ timestamps ts

min_loop_lem :
    (m : ℤ) (ts : List ℤ)
    → (r : ℤ) × (min_loop m (timestamps ts) ≡ ok r)
      × In r (m ∷ ts)
      × (r ≤ℤ m)
      × All (λ t. r ≤ℤ t) ts
unfolding min_loop
min_loop_lem m [] = (m, refl, inl refl, ≤ℤ_refl m, tt)
min_loop_lem m (t ∷ ts) = elim (Bool-cases (ltb_ℤ t m)) [
  | inl less ↦
      let (r, done, among, low, all) = min_loop_lem t ts in
      (r, rw less done, inr among, ≤ℤ_trans r t m low (lt→≤ℤ t m less), (low, all))
  | inr more ↦
      let (r, done, among, low, all) = min_loop_lem m ts in
      (r, rw more done, skip among, low, (≤ℤ_trans r m t low (not_lt→≤ℤ t m more), all))
]
  where
    skip : {r : ℤ} → (r ≡ m) ⊎ In r ts → (r ≡ m) ⊎ ((r ≡ t) ⊎ In r ts)
    skip (inl e) = inl e
    skip (inr i) = inr (inr i)

max_loop_lem :
    (m : ℤ) (ts : List ℤ)
    → (r : ℤ) × (max_loop m (timestamps ts) ≡ ok r)
      × In r (m ∷ ts)
      × (m ≤ℤ r)
      × All (λ t. t ≤ℤ r) ts
unfolding max_loop
max_loop_lem m [] = (m, refl, inl refl, ≤ℤ_refl m, tt)
max_loop_lem m (t ∷ ts) = elim (Bool-cases (ltb_ℤ m t)) [
  | inl less ↦
      let (r, done, among, high, all) = max_loop_lem t ts in
      (r, rw less done, inr among, ≤ℤ_trans m t r (lt→≤ℤ m t less) high, (high, all))
  | inr more ↦
      let (r, done, among, high, all) = max_loop_lem m ts in
      (r, rw more done, skip among, high, (≤ℤ_trans t m r (not_lt→≤ℤ m t more) high, all))
]
  where
    skip : {r : ℤ} → (r ≡ m) ⊎ In r ts → (r ≡ m) ⊎ ((r ≡ t) ⊎ In r ts)
    skip (inl e) = inl e
    skip (inr i) = inr (inr i)

-- Over timestamps, of which there is at least one, MIN and MAX return a timestamp of the list that
-- no other goes below, and one that no other goes above.
pub min_max_function_selector :
    (t : ℤ) (ts : List ℤ)
    → (lo hi : ℤ) × (min_function_selector (timestamps (t ∷ ts)) ≡ ok (int64 lo ∷ []))
      × (max_function_selector (timestamps (t ∷ ts)) ≡ ok (int64 hi ∷ []))
      × In lo (t ∷ ts)
      × In hi (t ∷ ts)
      × All (λ u. lo ≤ℤ u) (t ∷ ts)
      × All (λ u. u ≤ℤ hi) (t ∷ ts)
unfolding min_function_selector max_function_selector
min_max_function_selector t ts =
    let (lo, min_done, lo_in, low, lows) = min_loop_lem t ts in
    let (hi, max_done, hi_in, high, highs) = max_loop_lem t ts in
    (lo, hi, rw min_done, rw max_done, lo_in, hi_in, (low, lows), (high, highs))
