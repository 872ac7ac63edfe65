-- ===== src/Node/Database/Refined.antt =====
-- The statement database as a map from identifiers to statements.
use concat.Base.{
  append_assoc, append-nil, Text, text_eq, ◌==◌, ◌≡◌, refl, sym, subst, ◌∙◌, ap, arith, true, false,
  Option, none, some, List, [], ◌∷◌, ◌++◌, ok, >>=-eq-ok, if◌then◌else◌,
}
use concat.Query.Statement.{Statement, header, statement_refs, statement_source}
use concat.Node.Database.{
  Sql, Coding, envelope_row, insert_refs, insert_rest, insert_row, delete_statement,
}
use concat.Node.Database.Tables.{
  Tables, update, with_data, with_envelope, with_refs, IsSql, Content, Rows, Holds,
}

module _ {Db : Type 0} (sql : Sql Db) (coding : Coding) (view : Db → Tables)
    (laws : IsSql sql view) where
  -- The references of an identifier after more are added.
  add_refs : Tables → Text → List Text → Tables
  add_refs t id [] = t
  add_refs t id (wki ∷ refs) = add_refs (with_refs t id (t.refs_of id ++ (wki ∷ []))) id refs

  insert_refs-add_refs :
      (id : Text) (refs : List Text) (tx tx' : Db)
      → insert_refs sql coding id refs tx ≡ ok tx'
      → view tx' ≡ add_refs (view tx) id refs
  unfolding insert_refs add_refs
  insert_refs-add_refs id [] tx tx' e = ground (arith, ap view)
  insert_refs-add_refs id (wki ∷ refs) tx tx' e =
      let (tx1, first, rest) = >>=-eq-ok (sql.insert_stmt_refs id wki tx) _ e in
      subst (λ t. view tx' ≡ add_refs t id refs) (laws.refs_inserted id wki tx tx1 first)
        (insert_refs-add_refs id refs tx1 tx' rest)

  add_refs_lem :
      (t : Tables) (id : Text) (refs : List Text) (j : Text)
      → ((add_refs t id refs).data_of j ≡ t.data_of j)
        × ((add_refs t id refs).envelope_of j ≡ t.envelope_of j)
        × ((add_refs t id refs).refs_of j ≡ (if j == id then t.refs_of j ++ refs else t.refs_of j))
  unfolding add_refs
  add_refs_lem t id [] j = (refl, refl, ground (arith, append-nil (t.refs_of j)))
  add_refs_lem t id (wki ∷ refs) j =
      let (d, e, r) = add_refs_lem (with_refs t id (t.refs_of id ++ (wki ∷ []))) id refs j in
      (d, e, ground (arith, r, append_assoc (t.refs_of id) (wki ∷ []) refs))

  -- What the insertion of a row does to the tables.
  insert_row-view :
      (s : Statement) (bytes : Text) (tx tx' : Db)
      → insert_row sql coding s bytes tx ≡ ok tx'
      → ((view tx).data_of (header s).id ≡ none)
        × (source : Text) × (refs : List Text) × (statement_source s ≡ ok source)
        × (statement_refs s ≡ ok refs)
        × (view tx'
            ≡ add_refs
                (with_envelope
                  (with_data (view tx) (header s).id (some bytes))
                  (header s).id
                  (some (envelope_row s source)))
                (header s).id
                refs)
  unfolding insert_row insert_rest
  insert_row-view s bytes tx tx' e =
      let (tx1, e1, more) = >>=-eq-ok (sql.insert_stmt_data (header s).id bytes tx) _ e in
      let (source, e2, more2) = >>=-eq-ok (statement_source s) _ more in
      let (tx2, e3, more3) =
        >>=-eq-ok (sql.insert_stmt_envelope (envelope_row s source) tx1) _ more2 in
      let (refs, e4, last) = >>=-eq-ok (statement_refs s) _ more3 in
      let (fresh, v1) = laws.data_inserted (header s).id bytes tx tx1 e1 in
      let v2 = laws.envelope_inserted (envelope_row s source) tx1 tx2 e3 in
      let v3 = insert_refs-add_refs (header s).id refs tx2 tx' last in
      (
        fresh,
        source,
        refs,
        e2,
        e4,
        v3
            ∙ ap (λ t. add_refs t (header s).id refs)
                (v2 ∙ ap (λ t. with_envelope t (header s).id (some (envelope_row s source))) v1),
      )

  pub absent :
      (t : Tables) (id : Text) (o : Option Statement)
      → Rows coding t id o
      → t.data_of id ≡ none
      → o ≡ none
  absent t id none rows fresh = refl
  absent t id (some s) (bytes, source, refs, _, _, _, _, d, _, _) fresh = ground (arith, d, fresh)

  -- Tables that agree at an identifier have the same rows there.
  Rows-agree :
      (t t' : Tables) (id : Text) (o : Option Statement)
      → t'.data_of id ≡ t.data_of id
      → t'.envelope_of id ≡ t.envelope_of id
      → t'.refs_of id ≡ t.refs_of id
      → Rows coding t id o
      → Rows coding t' id o
  Rows-agree t t' id none d e r (x, y, z) = (d ∙ x, e ∙ y, r ∙ z)
  Rows-agree t t' id (some s) d e r (bytes, source, refs, i, b, c, f, x, y, z) =
      (bytes, source, refs, i, b, c, f, d ∙ x, e ∙ y, r ∙ z)

  abbrev inserted : Tables → Statement → Text → Text → List Text → Tables
  inserted t s bytes source refs =
      add_refs
        (with_envelope (with_data t (header s).id (some bytes)) (header s).id
          (some (envelope_row s source)))
        (header s).id refs

  inserted-Rows :
      (t : Tables) (s : Statement) (bytes source : Text) (refs : List Text) (m : Content)
      → coding.marshal s ≡ ok bytes
      → statement_source s ≡ ok source
      → statement_refs s ≡ ok refs
      → Rows coding t (header s).id none
      → (j : Text) → Rows coding t j (m j)
      → Rows coding (inserted t s bytes source refs) j (update m (header s).id (some s) j)
  inserted-Rows t s bytes source refs m me e2 e4 (x, y, z) j old =
      let t0 : Tables =
        with_envelope (with_data t (header s).id (some bytes)) (header s).id
          (some (envelope_row s source)) in
      let (d, e, r) = add_refs_lem t0 (header s).id refs j in
      elim (text_eq.dec j (header s).id) [
        | yes same ↦
            let test : (j == (header s).id) ≡ true = ground arith in
            let at : update m (header s).id (some s) j ≡ some s = ground arith in
            let z' : t.refs_of j ≡ [] = rw same z in
            subst (Rows coding (inserted t s bytes source refs) j) (sym at) (
              bytes,
              source,
              refs,
              sym same,
              me,
              e2,
              e4,
              ground (arith, d),
              ground (arith, e),
              ground (arith, r, z'),
            )
        | no other ↦
            let test : (j == (header s).id) ≡ false = ground arith in
            let at : update m (header s).id (some s) j ≡ m j = ground arith in
            subst (Rows coding (inserted t s bytes source refs) j) (sym at) (
              Rows-agree t (inserted t s bytes source refs) j (m j) (ground (arith, d))
                (ground (arith, e)) (ground (arith, r)) old)
      ]

  -- A row is inserted where there is none, and then the identifier has its statement.
  pub insert_row-Holds :
      (s : Statement) (bytes : Text) (m : Content) (tx tx' : Db)
      → coding.marshal s ≡ ok bytes
      → insert_row sql coding s bytes tx ≡ ok tx'
      → Holds coding (view tx) m
      → (m (header s).id ≡ none) × Holds coding (view tx') (update m (header s).id (some s))
  insert_row-Holds s bytes m tx tx' me e h =
      let id : Text = (header s).id in
      let (fresh, source, refs, e2, e4, v) = insert_row-view s bytes tx tx' e in
      let none_there : m id ≡ none = absent (view tx) id (m id) (h id) fresh in
      let old : Rows coding (view tx) id none =
        subst (Rows coding (view tx) id) none_there (h id) in
      (
        none_there,
        λ j.
            subst (λ t. Rows coding t j (update m id (some s) j)) (sym v)
              (inserted-Rows (view tx) s bytes source refs m me e2 e4 old j (h j)),
      )

  pub deleted-Holds :
      (id : Text) (m : Content) (tx tx' : Db)
      → delete_statement sql coding id tx ≡ ok tx'
      → Holds coding (view tx) m
      → Holds coding (view tx') (update m id none)
  unfolding delete_statement
  deleted-Holds id m tx tx' e h =
      let (tx1, e1, more) = >>=-eq-ok (sql.delete_stmt_data id tx) _ e in
      let (tx2, e2, e3) = >>=-eq-ok (sql.delete_stmt_envelope id tx1) _ more in
      let v : view tx' ≡ with_refs (with_envelope (with_data (view tx) id none) id none) id [] =
        laws.refs_deleted id tx2 tx' e3
        ∙ ap (λ t. with_refs t id [])
            (laws.envelope_deleted id tx1 tx2 e2
              ∙ ap (λ t. with_envelope t id none) (laws.data_deleted id tx tx1 e1)) in
      λ j. subst (λ t. Rows coding t j (update m id none j)) (sym v) (rows j)
    where
      rows :
          (j : Text)
          → Rows coding
              (with_refs (with_envelope (with_data (view tx) id none) id none) id [])
              j
              (update m id none j)
      rows j = elim (text_eq.dec j id) [
        | yes same ↦
            let test : (j == id) ≡ true = ground arith in
            let at : update m id none j ≡ none = ground arith in
            subst
              (Rows coding (with_refs (with_envelope (with_data (view tx) id none) id none) id [])
                j)
              (sym at) (ground arith, ground arith, ground arith)
        | no other ↦
            let test : (j == id) ≡ false = ground arith in
            let at : update m id none j ≡ m j = ground arith in
            subst
              (Rows coding (with_refs (with_envelope (with_data (view tx) id none) id none) id [])
                j)
              (sym at)
              (Rows-agree (view tx)
                (with_refs (with_envelope (with_data (view tx) id none) id none) id []) j (m j)
                (ground arith) (ground arith) (ground arith) (h j))
      ]
