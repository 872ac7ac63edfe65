-- ===== src/Node/Push/Authorized.antt =====
-- What a push can put into the database.
use concat.Base.{
  ℕ, ◌≡◌, refl, sym, subst, ap, arith, Text, text_eq, text_dec, Bool, true, false, Option, none,
  some, List, [], ◌∷◌, map, Error, Result, ok, err, panic, contains, All, In, inl, inr, Bool-cases,
}
use concat.Base.Dict.{Dict}
use concat.Query.Statement.{Statement, header}
use concat.Node.Auth.{PeerAuth, get_rules}
use concat.Node.Auth.Granted.{Some, authorize-Answers}
use concat.Node.Statements.{Verifier}
use concat.Node.Database.{statement_value}
use concat.Node.MergeStream.{Handoff, Round, goes, breaks, crashes, run_merge}
use concat.Node.MergeStream.Rounds.{state, statements, Batches, stay, Accepted}
use concat.Node.MergeStream.Batches.{run_merge-Batches, Batches-weaken}
use concat.Node.Push.{
  PushMessage, stmt_message, end_message, unset_message, unreadable_message, forward, finished,
  push_merge, push_authorized, push_handler,
}

-- A statement of a namespace that is asked for is forwarded only.
forward-All :
    (nss : List Text) (messages : List PushMessage)
    → All (λ s. contains nss (header s).namespace ≡ true) (forward nss messages).0
unfolding forward
forward-All nss [] = tt
forward-All nss (stmt_message none ∷ rest) = tt
forward-All nss (stmt_message (some s) ∷ rest) =
    elim (Bool-cases (contains nss (header s).namespace)) [
      | inl there ↦ rw there (there, forward-All nss rest)
      | inr absent ↦ rw absent tt
    ]
forward-All nss (end_message ∷ rest) = tt
forward-All nss (unset_message ∷ rest) = tt
forward-All nss (unreadable_message e ∷ rest) = tt

All-contains :
    (P : Text → Type 0) (nss : List Text) (ns : Text) → All P nss → contains nss ns ≡ true → P ns
All-contains P [] ns a c = ground arith
All-contains P (x ∷ nss) ns (p, a) c = elim (text_dec ns x) [
  | yes same ↦ subst P (sym same) p
  | no other ↦ All-contains P nss ns a (ground arith)
]

All-In : (P : Statement → Type 0) (ss : List Statement) (s : Statement) → All P ss → In s ss → P s
All-In P [] s a i = absurd i
All-In P (x ∷ ss) s (p, a) (inl same) = subst P (sym same) p
All-In P (x ∷ ss) s (p, a) (inr i) = All-In P ss s a i

statements-map : (ss : List Statement) → statements (map statement_value ss) ≡ ss
statements-map [] = refl
statements-map (s ∷ ss) = ap (λ r. s ∷ r) (statements-map ss)

module _ {Db : Type 0} (vr : Verifier) (from_b58 : Text → Result Text)
    (handoff : List (Dict Text Text) → Handoff) (merge_batch : List Statement → Db → Result ℕ × Db)
    (results : ℕ → List (ℕ × Option Error)) (cpus : ℕ) (auth : PeerAuth) (pid : Text) where
  -- A statement that passes the check and verifies, of a namespace that a rule of the peer admits.
  abbrev pub Admitted : Statement → Type 0
  Admitted s = Accepted vr s × Some (get_rules auth pid) (header s).namespace

  finished-db :
      (stmts : List Statement) (e : Option Error) (r : Round Db)
      → (finished vr from_b58 handoff merge_batch results cpus stmts e r).db ≡ (state r).db
  unfolding finished
  finished-db stmts e (goes m) = refl
  finished-db stmts e (breaks x m) = refl
  finished-db stmts e (crashes m) = refl

  push_merge-Batches :
      (nss : List Text) (messages : List PushMessage) (db : Db)
      → All (Some (get_rules auth pid)) nss
      → Batches merge_batch Admitted db
          (push_merge vr from_b58 handoff merge_batch results cpus nss messages db).db
  unfolding push_merge
  push_merge-Batches nss messages db rules =
      let (stmts, e) = forward nss messages in
      let r : Round Db =
        run_merge vr from_b58 handoff merge_batch (map statement_value stmts) cpus db in
      subst (Batches merge_batch Admitted db) (sym (finished-db stmts e r)) (
        Batches-weaken merge_batch _ Admitted admitted db (state r).db
          (run_merge-Batches vr from_b58 handoff merge_batch (map statement_value stmts) cpus db))
    where
      admitted :
          (s : Statement)
          → Accepted vr s × In s (statements (map statement_value (forward nss messages).0))
          → Admitted s
      admitted s (a, i) =
          let i' : In s (forward nss messages).0 =
            subst (In s) (statements-map (forward nss messages).0) i in
          (
            a,
            All-contains (Some (get_rules auth pid)) nss (header s).namespace rules (
                All-In (λ x. contains nss (header x).namespace ≡ true) (forward nss messages).0 s
                  (forward-All nss messages) i'),
          )

  -- A push, whatever the peer sends and however it ends, only merges batches of statements that pass
  -- the check, verify under their publisher's key, and have a namespace that a rule of the peer
  -- admits. So a peer without rules changes nothing.
  pub push_handler-Batches :
      (request : Result (List Text)) (sent : Bool) (messages : List PushMessage) (db : Db)
      → Batches merge_batch Admitted db
          (push_handler vr from_b58 handoff merge_batch results cpus auth pid request sent messages
            db).db
  unfolding push_handler push_authorized
  push_handler-Batches (err e) sent messages db = stay
  push_handler-Batches panic sent messages db = stay
  push_handler-Batches (ok nss) sent messages db =
      let (b, is, (to, from)) = authorize-Answers auth pid nss in
      rw is (decided b (λ t. (to t).1) sent)
    where
      decided :
          (b : Bool)
          → (b ≡ true → All (Some (get_rules auth pid)) nss)
          → (sent : Bool)
          → Batches merge_batch Admitted db
              (push_authorized vr from_b58 handoff merge_batch results cpus
                (ok b)
                sent
                nss
                messages
                db).db
      decided true rules true = push_merge-Batches nss messages db (rules refl)
      decided true rules false = stay
      decided false rules sent = stay
