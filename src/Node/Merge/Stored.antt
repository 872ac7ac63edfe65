-- ===== src/Node/Merge/Stored.antt =====
-- What a merge of data puts into the datastore.
use concat.Base.{
  ℕ, suc, ◌+◌, ◌≤◌, ◌≡◌, refl, subst, ◌∙◌, Text, text_eq, ◌==◌, Option, none, some, List, [], ◌∷◌,
  Error, Result, ok, err, panic, ◌>>=◌, >>=-eq-ok, arith, length, Bool-cases, inl, inr, ltb,
}
use concat.Base.Dict.{Dict, lookup, remove}
use concat.Node.Merge.{
  Message, data_object, end, error, unset, unreadable, Services, Merged, wanted, receive, stop,
  receive_loop, check_count, read_results, request_objects, merge_data, read_msgs,
}

module _ {Store : Type 0} (sv : Services Store) where
  -- Objects that are put one by one, each under a key that is asked for and that is its hash, and no
  -- key twice.
  pub data Puts : Dict Text Text → Store → ℕ → Store → Type 0 where
    none_put : {keys : Dict Text Text} {store : Store} → Puts keys store 0 store
    one_put :
        {keys : Dict Text Text} {store store' final : Store} {n : ℕ} (key58 object : Text)
        → lookup keys key58 ≡ some (sv.hash object)
        → sv.put object store ≡ ok store'
        → Puts (remove keys key58) store' n final
        → Puts keys store (suc n) final

  abbrev Received :
      Option Text → Text → Text → Dict Text Text → Store → Result (Dict Text Text × Store) → Type 0
  Received found key58 object keys store panic = Unit
  Received found key58 object keys store (err e) = Unit
  Received found key58 object keys store (ok (keys', store')) =
      (found ≡ some (sv.hash object))
      × (sv.put object store ≡ ok store')
      × (keys' ≡ remove keys key58)

  receive-Received :
      (found : Option Text) (key58 object : Text) (keys : Dict Text Text) (store : Store)
      → Received found key58 object keys store (receive sv found key58 object keys store)
  unfolding receive
  receive-Received none key58 object keys store = tt
  receive-Received (some key) key58 object keys store = elim (Bool-cases (key == sv.hash object)) [
    | inl same ↦ rw same (stored (sv.put object store) refl (ground arith))
    | inr other ↦ rw other tt
  ]
    where
      stored :
          (r : Result Store)
          → sv.put object store ≡ r
          → key ≡ sv.hash object
          → Received
              (some key)
              key58
              object
              keys
              store
              (r >>= λ store'. ok (remove keys key58, store'))
      stored panic e is = tt
      stored (err x) e is = tt
      stored (ok store') e is = (rw is, e, refl)

  -- What a run has put, from a count on.
  abbrev Outcome : Dict Text Text → Store → ℕ → Merged Store → Type 0
  Outcome keys store count m = (n : ℕ) × Puts keys store n m.store × (m.count ≡ count + n)

  ended :
      (keys : Dict Text Text) (store : Store) (count : ℕ) (f : Option Error) (m : Merged Store)
      → ok (record { count = count; store = store; failure = f }) ≡ ok m
      → Outcome keys store count m
  ended keys store count f m e =
      let at : store ≡ m.store = ground arith in
      (0, subst (Puts keys store 0) at none_put, ground arith)

  receive_loop-Outcome :
      (messages : List Message) (keys : Dict Text Text) (count : ℕ) (store : Store)
      (m : Merged Store)
      → receive_loop sv messages keys count store ≡ ok m
      → Outcome keys store count m
  unfolding receive_loop
  receive_loop-Outcome [] keys count store m e = ended keys store count _ m e
  receive_loop-Outcome (data_object key58 object ∷ rest) keys count store m e =
      next (receive sv (lookup keys key58) key58 object keys store)
        (receive-Received (lookup keys key58) key58 object keys store)
        (λ keys' store' e'. receive_loop-Outcome rest keys' (suc count) store' m e') e
    where
      next :
          (r : Result (Dict Text Text × Store))
          → Received (lookup keys key58) key58 object keys store r
          → ((keys' : Dict Text Text) (store' : Store)
              → receive_loop sv rest keys' (suc count) store' ≡ ok m
              → Outcome keys' store' (suc count) m)
          → (elim r [
            | panic ↦ panic
            | err x ↦ stop sv count store x
            | ok (keys', store') ↦ receive_loop sv rest keys' (suc count) store'
          ])
            ≡ ok m
          → Outcome keys store count m
      next panic t more e = ground arith
      next (err x) t more e = ended keys store count _ m e
      next (ok (keys', store')) (found, put, is) more e =
          let (n, puts, total) = more keys' store' e in
          (
            suc n,
            one_put key58 object found put (subst (λ k. Puts k store' n m.store) is puts),
            omega (arith, total),
          )
  receive_loop-Outcome (end ∷ rest) keys count store m e = ended keys store count _ m e
  receive_loop-Outcome (error x ∷ rest) keys count store m e = ended keys store count _ m e
  receive_loop-Outcome (unset ∷ rest) keys count store m e = ended keys store count _ m e
  receive_loop-Outcome (unreadable x ∷ rest) keys count store m e = ended keys store count _ m e

  -- Everything asked for is counted, where there is no failure.
  abbrev pub Enough : Result (List Text) → Merged Store → Type 0
  Enough w m = m.failure ≡ none → (keys58 : List Text) × (w ≡ ok keys58) × (length keys58 ≤ m.count)

  abbrev Checked : List Text → Merged Store → Type 0
  Checked keys58 m =
      ((check_count sv (length keys58) m).count ≡ m.count)
      × ((check_count sv (length keys58) m).store ≡ m.store)
      × Enough (ok keys58) (check_count sv (length keys58) m)

  checked :
      (keys58 : List Text) (count : ℕ) (store : Store) (f : Option Error)
      → Checked keys58 (record { count = count; store = store; failure = f })
  unfolding check_count
  checked keys58 count store (some x) = (refl, refl, λ f. ground arith)
  checked keys58 count store none = elim (Bool-cases (ltb count (length keys58))) [
    | inl few ↦ rw few (refl, refl, λ f. ground arith)
    | inr enough ↦ rw enough (refl, refl, λ f. (keys58, refl, ground arith))
  ]

  read_results-Outcome :
      (w : Option Error) (keys58 : List Text) (messages : List Message) (keys : Dict Text Text)
      (store : Store) (m : Merged Store)
      → read_results sv w keys58 messages keys store ≡ ok m
      → Outcome keys store 0 m × Enough (ok keys58) m
  unfolding read_results
  read_results-Outcome (some x) keys58 messages keys store m e =
      (ended keys store 0 _ m e, ground arith)
  read_results-Outcome none keys58 messages keys store m e =
      let (m', ran, is) = >>=-eq-ok (receive_loop sv messages keys 0 store) _ e in
      let (n, puts, total) = receive_loop-Outcome messages keys 0 store m' ran in
      let same : check_count sv (length keys58) m' ≡ m = ground arith in
      let (counts, stores, enough) = checked keys58 m'.count m'.store m'.failure in
      rw (← same) ((n, rw stores puts, counts ∙ total), enough)

  request_objects-Outcome :
      (w : Result (List Text)) (messages : List Message) (keys : Dict Text Text) (store : Store)
      (m : Merged Store)
      → request_objects sv w messages keys store ≡ ok m
      → Outcome keys store 0 m × Enough w m
  unfolding request_objects
  request_objects-Outcome panic messages keys store m e = ground arith
  request_objects-Outcome (err x) messages keys store m e = (ended keys store 0 _ m e, ground arith)
  request_objects-Outcome (ok []) messages keys store m e =
      (ended keys store 0 _ m e, λ f. ([], refl, omega arith))
  request_objects-Outcome (ok (key58 ∷ keys58)) messages keys store m e =
      read_results-Outcome _ (key58 ∷ keys58) messages keys store m e

  -- A merge of data that returns has put exactly as many objects as it counts, one by one, each of
  -- them under a key that was asked of the merge and that is the hash of the object, and no key twice.
  -- Where it returns no error, the count is at least the number of keys that the datastore lacked.
  pub merge_data-Outcome :
      (messages : List Message) (keys : Dict Text Text) (store : Store) (m : Merged Store)
      → merge_data sv messages keys store ≡ ok m
      → ((n : ℕ) × Puts keys store n m.store × (m.count ≡ n)) × Enough (wanted sv keys store) m
  unfolding merge_data
  merge_data-Outcome messages keys store m e =
      let ((n, puts, total), enough) =
        request_objects-Outcome (wanted sv keys store) (read_msgs sv messages) keys store m e in
      ((n, puts, omega (arith, total)), enough)
