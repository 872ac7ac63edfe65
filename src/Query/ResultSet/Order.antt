-- ===== src/Query/ResultSet/Order.antt =====
-- mc/query/eval.go: the order in which `range` goes through a Go map, which the language leaves open.
use mathlib.Core.List.Permᴰ
use mathlib.Core.List.{Permᴰ}
use concat.Base.{
  suc, ◌≡◌, refl, sym, ◌∙◌, ap, subst, List, [], ◌∷◌, length, In, All, inl, inr, arith, ◌⊎◌,
}
use concat.Base.Int.{ℤ}
use concat.Query.Selector.{Scalar, int64}
use concat.Query.Selector.Extremes.{timestamps}

-- Each key is gone through once, in some order.
abbrev pub IsOrder : (List Scalar → List Scalar) → Type 0
IsOrder order = (keys : List Scalar) → Permᴰ (order keys) keys

module _ {A : Type 0} where
  pub length-perm : {xs ys : List A} → Permᴰ xs ys → length xs ≡ length ys
  length-perm Permᴰ.nil = refl
  length-perm (Permᴰ.cons e p) = ap suc (length-perm p)
  length-perm (Permᴰ.swap e f) = refl
  length-perm (Permᴰ.trans p q) = length-perm p ∙ length-perm q

  All-perm : (P : A → Type 0) {xs ys : List A} → Permᴰ xs ys → All P ys → All P xs
  All-perm P Permᴰ.nil h = tt
  All-perm P (Permᴰ.cons e p) (h, hs) = (subst P (sym e) h, All-perm P p hs)
  All-perm P (Permᴰ.swap e f) (h, (g, hs)) = (subst P (sym e) g, (subst P (sym f) h, hs))
  All-perm P (Permᴰ.trans p q) h = All-perm P p (All-perm P q h)

  In-perm : (a : A) {xs ys : List A} → Permᴰ xs ys → In a xs → In a ys
  In-perm a Permᴰ.nil i = absurd i
  In-perm a (Permᴰ.cons e p) (inl is) = inl (is ∙ e)
  In-perm a (Permᴰ.cons e p) (inr i) = inr (In-perm a p i)
  In-perm a (Permᴰ.swap e f) (inl is) = inr (inl (is ∙ e))
  In-perm a (Permᴰ.swap e f) (inr (inl is)) = inl (is ∙ f)
  In-perm a (Permᴰ.swap e f) (inr (inr i)) = inr (inr i)
  In-perm a (Permᴰ.trans p q) i = In-perm a q (In-perm a p i)

  All-In : (P : A → Type 0) (xs : List A) → ((a : A) → In a xs → P a) → All P xs
  All-In P [] h = tt
  All-In P (x ∷ xs) h = (h x (inl refl), All-In P xs (λ a i. h a (inr i)))

  In-All : (P : A → Type 0) (a : A) (xs : List A) → All P xs → In a xs → P a
  In-All P a [] h i = absurd i
  In-All P a (x ∷ xs) (h, hs) (inl is) = subst P (sym is) h
  In-All P a (x ∷ xs) (h, hs) (inr i) = In-All P a xs hs i

abbrev IsTimestamp : Scalar → Type 0
IsTimestamp v = (t : ℤ) × (v ≡ int64 t)

timestamps-IsTimestamp : (ts : List ℤ) → All IsTimestamp (timestamps ts)
timestamps-IsTimestamp [] = tt
timestamps-IsTimestamp (t ∷ ts) = ((t, refl), timestamps-IsTimestamp ts)

as_timestamps : (vs : List Scalar) → All IsTimestamp vs → (ts : List ℤ) × (vs ≡ timestamps ts)
as_timestamps [] h = ([], refl)
as_timestamps (v ∷ vs) ((t, e), h) =
    let (ts, same) = as_timestamps vs h in (t ∷ ts, ap (λ x. x ∷ vs) e ∙ ap (λ l. int64 t ∷ l) same)

In-timestamps : (t : ℤ) (ts : List ℤ) → In t ts → In (int64 t) (timestamps ts)
In-timestamps t [] i = absurd i
In-timestamps t (u ∷ ts) (inl e) = inl (ap int64 e)
In-timestamps t (u ∷ ts) (inr i) = inr (In-timestamps t ts i)

timestamps-In : (t : ℤ) (ts : List ℤ) → In (int64 t) (timestamps ts) → In t ts
timestamps-In t [] i = absurd i
timestamps-In t (u ∷ ts) (inl e) = inl (ground arith)
timestamps-In t (u ∷ ts) (inr i) = inr (timestamps-In t ts i)

-- Timestamps in another order: they are as many, of the same times.
pub timestamps-perm :
    (vs : List Scalar) (us : List ℤ)
    → Permᴰ vs (timestamps us)
    → (ts : List ℤ) × (vs ≡ timestamps ts)
      × (length vs ≡ length (timestamps us))
      × ((t : ℤ) → In t ts → In t us)
      × ((t : ℤ) → In t us → In t ts)
timestamps-perm vs us p =
    let (ts, same) = as_timestamps vs (All-perm IsTimestamp p (timestamps-IsTimestamp us)) in
    let p' : Permᴰ (timestamps ts) (timestamps us) = subst (λ l. Permᴰ l (timestamps us)) same p in
    (
      ts,
      same,
      length-perm p,
      λ t i. timestamps-In t us (In-perm (int64 t) p' (In-timestamps t ts i)),
      λ t i. timestamps-In t ts (In-perm (int64 t) (Permᴰ.symm p') (In-timestamps t us i)),
    )

-- What all of some times are, others among them are.
pub All-among :
    (P : ℤ → Type 0) (ts us : List ℤ) → ((t : ℤ) → In t us → In t ts) → All P ts → All P us
All-among P ts us among h = All-In P us (λ t i. In-All P t ts h (among t i))

-- A single key is gone through as it is.
pub single-perm : (vs : List Scalar) (v : Scalar) → Permᴰ vs (v ∷ []) → vs ≡ v ∷ []
single-perm vs v p = one vs (length-perm p) (λ w i. In-perm w p i)
  where
    one :
        (vs : List Scalar) → length vs ≡ 1 → ((w : Scalar) → In w vs → In w (v ∷ [])) → vs ≡ v ∷ []
    one [] n h = ground arith
    one (w ∷ x ∷ vs) n h = ground arith
    one (w ∷ []) n h = is (h w (inl refl))
      where
        is : (w ≡ v) ⊎ ⊥ → w ∷ [] ≡ v ∷ []
        is (inl e) = ap (λ x. x ∷ []) e
        is (inr i) = absurd i
