-- ===== src/Node/Statements/Made.antt =====
-- What a node publishes.
use concat.Base.{
  not, ◌&&◌, ℕ, suc, ◌+◌, ◌%◌, ◌^◌, ◌≤◌, ◌<◌, ◌≡◌, ◌≢◌, refl, sym, ap, subst, ◌∙◌, Text, text_eq,
  nat_eq, codes, ◌==◌, true, false, some, List, [], ◌∷◌, ◌++◌, Result, ok, err, panic, ◌>>=◌,
  >>=-eq-ok, arith, length, All, All-weaken, Nodup, contains,
}
use mathlib.Core.List.{append_cancel_left}
use concat.Base.Int.{ℤ, pos, ltb_ℤ, int_eq}
use concat.Query.Statement.{Statement, statement, header, body, StatementBody}
use concat.Node.Statements.{
  Signer, Maker, Publication, body_of, simple_statement, compound_statement, envelope_statement,
  archive_statement, other, statement_id, sign_statement, ids, stmt_counter, has_body, draft,
  make_statement, make_statements, publish_made, do_publish_batch, check_statement, unsigned,
}

-- Numbers are printed apart from one another and without a colon.
pub record IsPrinter (sg : Signer) : Type 0 where
  pub show-inj : (m n : ℕ) → sg.show m ≡ sg.show n → m ≡ n
  pub show_plain : (n : ℕ) → contains (sg.show n) b':' ≡ false
  pub show_time_plain : (t : ℤ) → contains (sg.show_time t) b':' ≡ false

-- Text before a colon ends at the first one.
colon-inj :
    (s t a b : Text)
    → contains s b':' ≡ false
    → contains t b':' ≡ false
    → s ++ (b':' ∷ a) ≡ t ++ (b':' ∷ b)
    → a ≡ b
colon-inj [] [] a b hs ht e = ground arith
colon-inj [] (d ∷ t) a b hs ht e = ground arith
colon-inj (c ∷ s) [] a b hs ht e = ground arith
colon-inj (c ∷ s) (d ∷ t) a b hs ht e =
    colon-inj s t a b (ground arith) (ground arith) (ground arith)

module _ (sg : Signer) (pr : IsPrinter sg) where
  statement_id-inj :
      (pid : Text) (t u : ℤ) (m n : ℕ) → statement_id sg pid t m ≡ statement_id sg pid u n → m ≡ n
  statement_id-inj pid t u m n e =
      let rest = append_cancel_left pid _ _ e in
      pr.show-inj m n (
        colon-inj (sg.show_time t) (sg.show_time u) (sg.show m) (sg.show n) (pr.show_time_plain t)
          (pr.show_time_plain u) (ground (arith, rest)))

  -- The signature of a statement is that of its own bytes without a signature.
  abbrev pub IsSigned : Statement → Type 0
  IsSigned stmt =
      (bytes sig : Text) × (sg.encoding (unsigned stmt) ≡ ok bytes)
      × (sg.sign bytes ≡ ok sig)
      × ((header stmt).signature ≡ some sig)

  -- A statement of the publisher under the k-th counter from a counter on, for a k below a bound.
  abbrev pub Numbered : Text → ℕ → ℕ → Statement → Type 0
  Numbered pid c n stmt =
      (k : ℕ) × (t : ℤ) × (k < n) × ((header stmt).id ≡ statement_id sg pid t ((c + k) % 2 ^ 64))

  pub record Made (ns pid : Text) (p : Publication) (c : ℕ) (t : ℤ) (stmt : Statement)
      : Type 0 where
    pub body_is : body_of p ≡ ok (body stmt)
    pub namespace_is : (header stmt).namespace ≡ ns
    pub publisher_is : (header stmt).publisher ≡ pid
    pub timestamp_is : (header stmt).timestamp ≡ t
    pub id : (header stmt).id ≡ statement_id sg pid t c
    pub checks : check_statement stmt ≡ (not (pid == []) && (not (ns == []) && ltb_ℤ (pos 0) t))
    pub signed : IsSigned stmt

  nonempty : (p q : Text) → ((p ++ (b':' ∷ q)) == []) ≡ false
  nonempty [] q = ground arith
  nonempty (c ∷ p) q = ground arith

  body_of-has_body : (p : Publication) (b : StatementBody) → body_of p ≡ ok b → has_body b ≡ true
  body_of-has_body (simple_statement s) b e = ground arith
  body_of-has_body (compound_statement ss) b e = ground arith
  body_of-has_body (envelope_statement stmts) b e = ground arith
  body_of-has_body archive_statement b e = ground arith
  body_of-has_body other b e = ground arith

  make_statement-Made :
      (ns : Text) (p : Publication) (t : ℤ) (node : Maker) (stmt : Statement)
      → (make_statement sg ns p t node).0 ≡ ok stmt
      → Made ns node.id58 p node.counter t stmt
  unfolding make_statement stmt_counter sign_statement check_statement
  make_statement-Made ns p t node stmt e =
      let (b, eb, es) = >>=-eq-ok (body_of p) _ e in
      let (bytes, em, es') = >>=-eq-ok (sg.encoding _) _ es in
      let (sig, eg, is) = >>=-eq-ok (sg.sign bytes) _ es' in
      signed b eb (body_of-has_body p b eb) bytes em sig eg (ground (arith, is))
    where
      signed :
          (b : StatementBody)
          → body_of p ≡ ok b
          → has_body b ≡ true
          → (bytes : Text) → sg.encoding (draft sg ns t node b) ≡ ok bytes
          → (sig : Text) → sg.sign bytes ≡ ok sig
          → statement (record (header (draft sg ns t node b)) { signature = some sig }) b ≡ stmt
          → Made ns node.id58 p node.counter t stmt
      signed b eb hb bytes em sig eg is = subst (Made ns node.id58 p node.counter t) is (record {
        body_is = eb;
        namespace_is = refl;
        publisher_is = refl;
        timestamp_is = refl;
        id = refl;
        checks =
            ground (
              arith,
              hb,
              nonempty node.id58 (sg.show_time t ++ (codes ":" ++ sg.show node.counter)),
            );
        signed = (bytes, sig, em, eg, refl);
      })

  -- The statements of a batch, one for each publication.
  abbrev pub AllMade : Text → Text → List (Publication × ℤ) → List Statement → Type 0
  AllMade ns pid [] [] = Unit
  AllMade ns pid ((p, t) ∷ lst) (stmt ∷ stmts) =
      ((c : ℕ) × Made ns pid p c t stmt) × AllMade ns pid lst stmts
  AllMade ns pid [] (stmt ∷ stmts) = ⊥
  AllMade ns pid (x ∷ lst) [] = ⊥

  pub record Batch (ns : Text) (node : Maker) (lst : List (Publication × ℤ))
      (stmts : List Statement) : Type 0 where
    pub each : AllMade ns node.id58 lst stmts
    pub numbered : All (Numbered node.id58 node.counter (length lst)) stmts
    pub nodup : length lst ≤ 2 ^ 64 → Nodup (ids stmts)

  later :
      (pid : Text) (c n : ℕ) (stmt : Statement)
      → Numbered pid ((c + 1) % 2 ^ 64) n stmt
      → Numbered pid c (suc n) stmt
  later pid c n stmt (k, t, h, e) =
      (suc k, t, omega arith, e ∙ ap (statement_id sg pid t) (omega arith))

  -- No id of statements numbered from `c + 1` on is that of `c`, before the counter comes round.
  fresh_id :
      (pid : Text) (c n : ℕ) (t : ℤ) (stmts : List Statement)
      → c < 2 ^ 64
      → n < 2 ^ 64
      → All (Numbered pid ((c + 1) % 2 ^ 64) n) stmts
      → contains (ids stmts) (statement_id sg pid t c) ≡ false
  fresh_id pid c n t [] hc hn h = refl
  fresh_id pid c n t (s ∷ ss) hc hn ((k, u, hk, e), h) =
      let rest = fresh_id pid c n t ss hc hn h in
      let apart : (header s).id ≢ statement_id sg pid t c =
        λ same. clash c k n hc hn hk (statement_id-inj pid u t _ c (sym e ∙ same)) in
      ground (arith, rest, apart)
    where
      clash :
          (c k n : ℕ) → c < 2 ^ 64 → n < 2 ^ 64 → k < n → ((c + 1) % 2 ^ 64 + k) % 2 ^ 64 ≡ c → ⊥
      clash c k n hc hn hk e = omega arith

  make_statements-Batch :
      (ns : Text) (lst : List (Publication × ℤ)) (node : Maker) (stmts : List Statement)
      → (make_statements sg ns lst node).0 ≡ ok stmts
      → node.counter < 2 ^ 64
      → Batch ns node lst stmts
  unfolding make_statements make_statement stmt_counter
  make_statements-Batch ns [] node [] e h = record { each = tt; numbered = tt; nodup = λ n. tt }
  make_statements-Batch ns [] node (s ∷ ss) e h = ground arith
  make_statements-Batch ns ((p, t) ∷ lst) node stmts e h =
      next (make_statement sg ns p t node).0 refl
        (λ ss e'.
          make_statements-Batch ns lst (make_statement sg ns p t node).1 ss e' (omega arith))
        e
    where
      next :
          (made : Result Statement)
          → (make_statement sg ns p t node).0 ≡ made
          → ((ss : List Statement)
              → (make_statements sg ns lst (make_statement sg ns p t node).1).0 ≡ ok ss
              → Batch ns (make_statement sg ns p t node).1 lst ss)
          → (elim made as (λ _. Result (List Statement) × Maker) [
            | panic ↦ (panic, (make_statement sg ns p t node).1)
            | err x ↦ (err x, (make_statement sg ns p t node).1)
            | ok stmt ↦
                let (rest, node'') = make_statements sg ns lst (make_statement sg ns p t node).1 in
                (rest >>= λ ss. ok (stmt ∷ ss), node'')
          ]).0
            ≡ ok stmts
          → Batch ns node ((p, t) ∷ lst) stmts
      next panic em more e = ground arith
      next (err x) em more e = ground arith
      next (ok stmt) em more e =
          let made = make_statement-Made ns p t node stmt em in
          let (ss, er, is) = >>=-eq-ok (make_statements sg ns lst _).0 _ e in
          let rest = more ss er in
          let whole : stmt ∷ ss ≡ stmts = ground (arith, is) in
          subst (Batch ns node ((p, t) ∷ lst)) whole (record {
            each = ((node.counter, made), rest.each);
            numbered = (
              (0, t, omega arith, made.id ∙ ap (statement_id sg node.id58 t) (omega arith)),
              All-weaken (λ s. later node.id58 node.counter (length lst) s) ss rest.numbered,
            );
            nodup = λ n. (
              rw made.id
                  (fresh_id node.id58 node.counter (length lst) t ss h (omega arith) rest.numbered),
              rest.nodup (omega arith),
            );
          })

  -- A batch of at most 2^64 publications, of a node whose counter has 64 bits, that is published: the
  -- ids that are returned are those of the statements that the database took in one batch. No two of
  -- them are alike, and there is one statement for each publication, in order: it has the body of its
  -- publication, the namespace of the batch, the node's publisher id and the time of its making, its id
  -- is of the publisher, that time and a counter, and it is signed by its bytes without the signature;
  -- it passes checkStatement exactly where the publisher and the
  -- namespace are not empty and the time is above zero. Numbers are printed apart from one another,
  -- and numbers and times without a colon.
  pub do_publish_batch-made :
      {Db : Type 0} (put_batch : List Statement → Db → Result (Unit {0}) × Db) (ns : Text)
      (lst : List (Publication × ℤ)) (node : Maker) (db : Db) (sids : List Text)
      → node.counter < 2 ^ 64
      → length lst ≤ 2 ^ 64
      → (do_publish_batch sg put_batch ns lst node db).0.0 ≡ ok sids
      → (stmts : List Statement) × ((put_batch stmts db).0 ≡ ok tt)
        × (sids ≡ ids stmts)
        × Nodup sids
        × AllMade ns node.id58 lst stmts
  unfolding do_publish_batch publish_made
  do_publish_batch-made put_batch ns lst node db sids h n e =
      by_made (make_statements sg ns lst node).0 refl e
    where
      by_made :
          (made : Result (List Statement))
          → (make_statements sg ns lst node).0 ≡ made
          → (publish_made sg put_batch made db).0 ≡ ok sids
          → (stmts : List Statement) × ((put_batch stmts db).0 ≡ ok tt)
            × (sids ≡ ids stmts)
            × Nodup sids
            × AllMade ns node.id58 lst stmts
      by_made panic em e = ground arith
      by_made (err x) em e = ground arith
      by_made (ok stmts) em e =
          let batch = make_statements-Batch ns lst node stmts em h in
          let (u, put, is) = >>=-eq-ok (put_batch stmts db).0 _ e in
          let same : sids ≡ ids stmts = ground (arith, is) in
          (stmts, put, same, rw same (batch.nodup n), batch.each)
