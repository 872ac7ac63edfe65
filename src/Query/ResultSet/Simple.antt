-- ===== src/Query/ResultSet/Simple.antt =====
-- What a simple result set gathers: the first distinct values, up to the limit.
use mathlib.Core.Path.{fun_ext}
use mathlib.Core.List.{append_assoc, append-nil}
use concat.Base.{
  ℕ, zero, suc, ◌+◌, ◌≡◌, refl, ◌∙◌, ap, ◌==◌, Eq, Bool, true, false, not, ◌&&◌, List, [], ◌∷◌,
  ◌++◌, arith, length, length-append, take, keep, contains, contains-append, insert, dedup,
  if◌then◌else◌, Bool-cases, inl, inr,
}
use concat.Base.Int.{ℤ, pos, negsuc, int_eq, int_dec, ltb_ℤ}

-- The first items that a limit admits; the limit 0 admits all.
abbrev pub cut {ℓ} : {A : Type ℓ} → ℤ → List A → List A
cut (pos zero) xs = xs
cut (pos (suc n)) xs = take (suc n) xs
cut (negsuc n) xs = []

-- The test of SimpleResultSet.add.
abbrev pub allows : ℤ → ℕ → Bool
allows limit n = if limit == pos 0 then true else ltb_ℤ (pos n) limit

module _ {ℓ} {A : Type ℓ} where
  keep-keep : (p q : A → Bool) (xs : List A) → keep p (keep q xs) ≡ keep (λ x. q x && p x) xs
  keep-keep p q [] = refl
  keep-keep p q (x ∷ xs) = ground (arith, keep-keep p q xs)

  keep-cong : (p q : A → Bool) (xs : List A) → ((x : A) → p x ≡ q x) → keep p xs ≡ keep q xs
  keep-cong p q xs h = rw (fun_ext h)

  keep_all : (p : A → Bool) (xs : List A) → ((x : A) → p x ≡ true) → keep p xs ≡ xs
  keep_all p [] h = refl
  keep_all p (x ∷ xs) h = ground (arith, h x, keep_all p xs h)

module _ {ℓ} {A : Type ℓ} ⦃e : Eq A⦄ where
  -- The set after a value is offered to it.
  abbrev pub offer : ℤ → List A → A → List A
  offer limit acc v = if allows limit (length acc) then insert acc v else acc

  unfoldable pub collect : ℤ → List A → List A → List A
  collect limit acc [] = acc
  collect limit acc (v ∷ vs) = collect limit (offer limit acc v) vs

  -- The items that a set does not hold yet.
  fresh : List A → List A → List A
  fresh acc = keep (λ x. not (contains acc x))

  fresh_old :
      (acc vs : List A) (v : A)
      → contains acc v ≡ true
      → fresh acc (dedup (v ∷ vs)) ≡ fresh acc (dedup vs)
  unfolding fresh
  fresh_old acc vs v h =
      rw (h, keep-keep (λ x. not (contains acc x)) (λ x. not (x == v)) (dedup vs))
        (keep-cong _ _ (dedup vs) (λ x. ground arith))

  fresh_new :
      (acc vs : List A) (v : A)
      → contains acc v ≡ false
      → fresh acc (dedup (v ∷ vs)) ≡ v ∷ fresh (acc ++ (v ∷ [])) (dedup vs)
  unfolding fresh
  fresh_new acc vs v h =
      rw (h, keep-keep (λ x. not (contains acc x)) (λ x. not (x == v)) (dedup vs))
        (ap (λ l. v ∷ l)
          (keep-cong _ _ (dedup vs) (λ x. ground (arith, contains-append acc (v ∷ []) x))))

  collect_unlimited : (acc vs : List A) → collect (pos 0) acc vs ≡ acc ++ fresh acc (dedup vs)
  unfolding collect int_dec fresh
  collect_unlimited acc [] = rw append-nil
  collect_unlimited acc (v ∷ vs) = elim (Bool-cases (contains acc v)) [
    | inl old ↦ rw (fresh_old acc vs v old, old) (collect_unlimited acc vs)
    | inr new ↦
        rw (fresh_new acc vs v new, new) (collect_unlimited (acc ++ (v ∷ [])) vs ∙ rw append_assoc)
  ]

  collect_full : (n : ℕ) (acc vs : List A) → length acc ≡ suc n → collect (pos (suc n)) acc vs ≡ acc
  unfolding collect
  collect_full n acc [] h = refl
  collect_full n acc (v ∷ vs) h =
      let stop : allows (pos (suc n)) (length acc) ≡ false = ground arith in
      rw stop (collect_full n acc vs h)

  collect_limited :
      (n k : ℕ) (acc vs : List A)
      → length acc + k ≡ suc n
      → collect (pos (suc n)) acc vs ≡ acc ++ take k (fresh acc (dedup vs))
  unfolding collect fresh
  collect_limited n zero acc vs h = rw append-nil (collect_full n acc vs (omega arith))
  collect_limited n (suc k) acc [] h = rw append-nil
  collect_limited n (suc k) acc (v ∷ vs) h =
      let go : allows (pos (suc n)) (length acc) ≡ true = ground arith in
      elim (Bool-cases (contains acc v)) [
        | inl old ↦ rw (fresh_old acc vs v old, go, old) (collect_limited n (suc k) acc vs h)
        | inr new ↦
            rw (fresh_new acc vs v new, go, new)
              (collect_limited n k (acc ++ (v ∷ [])) vs (omega (arith, length-append acc (v ∷ [])))
                ∙ rw append_assoc)
      ]

  collect_none : (n : ℕ) (vs : List A) → collect (negsuc n) [] vs ≡ []
  unfolding collect
  collect_none n [] = refl
  collect_none n (v ∷ vs) =
      let stop : allows (negsuc n) 0 ≡ false = ground arith in rw stop (collect_none n vs)

  -- Offering values one by one to the empty set keeps the first distinct ones that fit the limit.
  pub collect-eq-cut : (limit : ℤ) (vs : List A) → collect limit [] vs ≡ cut limit (dedup vs)
  unfolding fresh
  collect-eq-cut (pos zero) vs =
      collect_unlimited [] vs ∙ keep_all (λ x. not (contains [] x)) (dedup vs) (λ x. refl)
  collect-eq-cut (pos (suc n)) vs =
      collect_limited n (suc n) [] vs (omega arith)
      ∙ ap (take (suc n)) (keep_all (λ x. not (contains [] x)) (dedup vs) (λ x. refl))
  collect-eq-cut (negsuc n) vs = collect_none n vs
