-- ===== src/Node/MergeStream/Contents.antt =====
-- A merge of a stream into the statement database.
use concat.Base.{
  ℕ, ◌+◌, ◌≡◌, refl, sym, ap, subst, ◌∙◌, ◌⊎◌, inl, inr, arith, Text, text_eq, text_dec, Option,
  none, some, List, [], ◌∷◌, Result, ok, err, panic, All, In,
}
use concat.Base.Dict.{Dict}
use concat.Query.Statement.{Statement, header}
use concat.Node.Statements.{Verifier}
use concat.Node.Database.{Sql, Coding, StreamValue, merge_batch}
use concat.Node.Database.Tables.{Tables, update, IsSql, Content, Holds}
use concat.Node.Database.Contents.{merge_spec, Ends, Merged, merge_batch-Merged}
use concat.Node.MergeStream.{Handoff, run_merge}
use concat.Node.MergeStream.Rounds.{state, statements, Batches, stay, more, Accepted}
use concat.Node.MergeStream.Batches.{run_merge-Batches}

-- A content that keeps its statements and adds some with a property.
abbrev pub Grows : (Statement → Type 0) → Content → Content → Type 0
Grows P m m' =
    (id : Text)
    → (m' id ≡ m id)
      ⊎ ((m id ≡ none) × ((s : Statement) × (m' id ≡ some s) × ((header s).id ≡ id) × P s))

module _ (P : Statement → Type 0) where
  Grows-trans : (m m' m'' : Content) → Grows P m m' → Grows P m' m'' → Grows P m m''
  Grows-trans m m' m'' g g' id = both (g id) (g' id)
    where
      both :
          (m' id ≡ m id)
            ⊎ ((m id ≡ none) × ((s : Statement) × (m' id ≡ some s) × ((header s).id ≡ id) × P s))
          → (m'' id ≡ m' id)
            ⊎ ((m' id ≡ none) × ((s : Statement) × (m'' id ≡ some s) × ((header s).id ≡ id) × P s))
          → (m'' id ≡ m id)
            ⊎ ((m id ≡ none) × ((s : Statement) × (m'' id ≡ some s) × ((header s).id ≡ id) × P s))
      both (inl same) (inl same') = inl (same' ∙ same)
      both (inl same) (inr (absent, new)) = inr (sym same ∙ absent, new)
      both (inr (absent, (s, e, i, p))) (inl same) = inr (absent, (s, same ∙ e, i, p))
      both (inr (absent, (s, e, i, p))) (inr (absent', new)) = ground (arith, e, absent')

  update-Grows :
      (m : Content) (s : Statement)
      → m (header s).id ≡ none
      → P s
      → Grows P m (update m (header s).id (some s))
  update-Grows m s absent p id = elim (text_dec id (header s).id) [
    | yes same ↦ inr (ap m same ∙ absent, (s, ground arith, sym same, p))
    | no other ↦ inl (ground arith)
  ]

  merge_spec-Grows :
      (stmts : List Statement) (n : ℕ) (m : Content)
      → All P stmts
      → Grows P m (merge_spec stmts n m).1
  unfolding merge_spec
  merge_spec-Grows [] n m a = λ id. inl refl
  merge_spec-Grows (s ∷ rest) n m (p, a) =
      next (m (header s).id) refl (λ n' m'. merge_spec-Grows rest n' m' a)
    where
      next :
          (o : Option Statement)
          → m (header s).id ≡ o
          → ((n' : ℕ) (m' : Content) → Grows P m' (merge_spec rest n' m').1)
          → Grows P m
              (elim o as (λ _. ℕ × Content) [
                | some t ↦ merge_spec rest n m
                | none ↦ merge_spec rest (n + 1) (update m (header s).id (some s))
              ]).1
      next (some t) e grow = grow n m
      next none e grow =
          Grows-trans m (update m (header s).id (some s)) _ (update-Grows m s e p) (grow (n + 1) _)

module _ {Db : Type 0} (sql : Sql Db) (coding : Coding) (view : Db → Tables) (laws : IsSql sql view)
    (P : Statement → Type 0) where
  Batches-Grows :
      (first last : Db) (m : Content)
      → Batches (merge_batch sql coding) P first last
      → Holds coding (view first) m
      → (m' : Content) × Holds coding (view last) m' × Grows P m m'
  Batches-Grows first last m stay h = (m, h, λ id. inl refl)
  Batches-Grows first last m (more {db = db} stmts before a e) h =
      let (m1, h1, g1) = Batches-Grows first db m before h in
      next m1 g1 (merge_batch sql coding stmts db)
        (merge_batch-Merged sql coding view laws stmts m1 db h1) e h1
    where
      next :
          (m1 : Content)
          → Grows P m m1
          → (r : Result ℕ × Db) → Ends (Merged sql coding view laws stmts m1) db r
          → r.1 ≡ last
          → Holds coding (view db) m1
          → (m' : Content) × Holds coding (view last) m' × Grows P m m'
      next m1 g1 (ok n, db') (_, holds) is h1 = (
        (merge_spec stmts 0 m1).1,
        subst (λ d. Holds coding (view d) (merge_spec stmts 0 m1).1) is holds,
        Grows-trans P m m1 (merge_spec stmts 0 m1).1 g1 (merge_spec-Grows P stmts 0 m1 a),
      )
      next m1 g1 (err x, db') same is h1 =
          (m1, subst (λ d. Holds coding (view d) m1) (sym same ∙ is) h1, g1)
      next m1 g1 (panic, db') same is h1 =
          (m1, subst (λ d. Holds coding (view d) m1) (sym same ∙ is) h1, g1)

module _ {Db : Type 0} (sql : Sql Db) (coding : Coding) (view : Db → Tables) (laws : IsSql sql view)
    (vr : Verifier) (from_b58 : Text → Result Text)
    (handoff : List (Dict Text Text) → Handoff) where
  -- A merge of a stream into the statement database keeps every statement that is there and adds only
  -- statements of the stream that pass the check and verify, each under its identifier, with its data,
  -- envelope and references, however the merge ends.
  pub run_merge-Grows :
      (values : List StreamValue) (cpus : ℕ) (first : Db) (m : Content)
      → Holds coding (view first) m
      → (m' : Content) × Holds coding
          (view
            (state (run_merge vr from_b58 handoff (merge_batch sql coding) values cpus first)).db)
          m'
        × Grows (λ s. Accepted vr s × In s (statements values)) m m'
  run_merge-Grows values cpus first m h =
      Batches-Grows sql coding view laws (λ s. Accepted vr s × In s (statements values)) first
        (state (run_merge vr from_b58 handoff (merge_batch sql coding) values cpus first)).db m
        (run_merge-Batches vr from_b58 handoff (merge_batch sql coding) values cpus first) h
