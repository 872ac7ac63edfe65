-- ===== src/Query/Parse/Emit/Runs.antt =====
-- What the emitted tokens do on the stack.
use concat.Base.{
  ℕ, ◌^◌, ◌<◌, ◌≡◌, refl, ◌∙◌, Text, text_eq, none, List, [], ◌∷◌, ◌++◌, Result, ok, ◌>>=◌,
  >>=_cong, >>=_assoc, sym,
}
use concat.Base.Int.{ℤ, pos, negsuc}
use concat.Query.{QueryCriteria, Query}
use concat.Query.Parse.{
  Cell, text, criteria, ParseState, Token, execute_token, execute_tokens, do_add_range_criteria,
  push, add_value_criteria, add_range_criteria, add_index_criteria, add_compound_criteria,
  add_negated_criteria,
}
use concat.Query.Parse.Emit.{capture, emit_criteria, emit_captures, IsPrintable}

-- A state with no error.
abbrev pub on : Query → List Cell → ParseState
on q st = record { query = q; stack = st; err = none }

-- The stack after values were pushed one by one.
unfoldable pub pushed {ℓ} : {A : Type ℓ} → (A → Cell) → List A → List Cell → List Cell
pushed f [] st = st
pushed f (a ∷ as') st = pushed f as' (f a ∷ st)

module _ (atoi : Text → Result ℤ) where
  execute_tokens-append :
      (xs ys : List Token) (t : Text) (a : ParseState)
      → execute_tokens atoi (xs ++ ys) t a
        ≡ (execute_tokens atoi xs t a >>= λ (u, b). execute_tokens atoi ys u b)
  unfolding execute_tokens
  execute_tokens-append [] ys t a = refl
  execute_tokens-append (x ∷ xs) ys t a =
      >>=_cong (execute_token atoi x t a) _ _ (λ (u, b). execute_tokens-append xs ys u b)
      ∙ sym (>>=_assoc (execute_token atoi x t a) _ _)

  -- The tokens lead from one state to another, whatever was captured before.
  pub record Runs (tokens : List Token) (a b : ParseState) : Type 0 where
    pub at : (t : Text) → (u : Text) × (execute_tokens atoi tokens t a ≡ ok (u, b))

  pub Runs-append :
      (xs ys : List Token) (a b c : ParseState) → Runs xs a b → Runs ys b c → Runs (xs ++ ys) a c
  Runs-append xs ys a b c r s = record {
    at = λ t.
        let (u, e) = r.at t in
        let (v, e') = s.at u in (v, execute_tokens-append xs ys t a ∙ rw e e');
  }

  pub Runs-nil : (a : ParseState) → Runs [] a a
  unfolding execute_tokens
  Runs-nil a = record { at = λ t. (t, refl) }

  -- One token whose action does not look at the capture.
  pub Runs-token :
      (x : Token) (rest : List Token) (a b c : ParseState)
      → ((t : Text) → execute_token atoi x t a ≡ ok (t, b))
      → Runs rest b c
      → Runs (x ∷ rest) a c
  unfolding execute_tokens
  Runs-token x rest a b c e r = record { at = λ t. rw (e t) (r.at t) }

  -- A capture that is pushed.
  pub Runs-capture :
      (t : Text) (rest : List Token) (q : Query) (st : List Cell) (c : ParseState)
      → Runs rest (on q (text t ∷ st)) c
      → Runs (capture t ++ rest) (on q st) c
  unfolding execute_tokens execute_token push
  Runs-capture t rest q st c r = record { at = λ _. r.at t }

  pub Runs-captures :
      (ts : List Text) (rest : List Token) (q : Query) (st : List Cell) (c : ParseState)
      → Runs rest (on q (pushed text ts st)) c
      → Runs (emit_captures ts ++ rest) (on q st) c
  unfolding emit_captures pushed
  Runs-captures [] rest q st c r = r
  Runs-captures (t ∷ ts) rest q st c r =
      Runs-capture t (emit_captures ts ++ rest) q st c (Runs-captures ts rest q (text t ∷ st) c r)

module _ (atoi : Text → Result ℤ) (show : ℕ → Text)
    (reads : (n : ℕ) → n < 2 ^ 63 → atoi (show n) ≡ ok (pos n)) where
  add_range_criteria_lem :
      (n : ℕ) (sel op : Text) (q : Query) (st : List Cell)
      → n < 2 ^ 63
      → (t : Text)
      → execute_token atoi do_add_range_criteria t (on q (text (show n) ∷ text op ∷ text sel ∷ st))
        ≡ ok (t, on q (criteria (QueryCriteria.range op sel (pos n)) ∷ st))
  unfolding execute_token add_range_criteria
  add_range_criteria_lem n sel op q st h t = rw (reads n h)

  -- The tokens of a criteria push it, and touch nothing else.
  pub emit_criteria-Runs :
      (c : QueryCriteria) (q : Query) (st : List Cell)
      → IsPrintable c
      → Runs atoi (emit_criteria show c) (on q st) (on q (criteria c ∷ st))
  unfolding emit_criteria execute_token add_value_criteria add_index_criteria add_compound_criteria
      add_negated_criteria
  emit_criteria-Runs (QueryCriteria.value op sel val) q st p = Runs-capture atoi sel _ q st _ (
      Runs-capture atoi op _ q _ _
        (Runs-capture atoi val _ q _ _ (Runs-token atoi _ _ _ _ _ (λ t. refl) (Runs-nil atoi _))))
  emit_criteria-Runs (QueryCriteria.range op sel (pos n)) q st p = Runs-capture atoi sel _ q st _ (
      Runs-capture atoi op _ q _ _ (
        Runs-capture atoi (show n) _ q _ _
          (Runs-token atoi _ _ _ _ _ (add_range_criteria_lem n sel op q st p) (Runs-nil atoi _))))
  emit_criteria-Runs (QueryCriteria.range op sel (negsuc n)) q st p = absurd p
  emit_criteria-Runs (QueryCriteria.index sel val) q st p =
      Runs-capture atoi sel _ q st _
        (Runs-capture atoi val _ q _ _ (Runs-token atoi _ _ _ _ _ (λ t. refl) (Runs-nil atoi _)))
  emit_criteria-Runs (QueryCriteria.compound op l r) q st (pl, pr) =
      Runs-append atoi (emit_criteria show l) _ _ _ _ (emit_criteria-Runs l q st pl) (
        Runs-capture atoi op _ q _ _ (
          Runs-append atoi (emit_criteria show r) _ _ _ _ (emit_criteria-Runs r q _ pr)
            (Runs-token atoi _ _ _ _ _ (λ t. refl) (Runs-nil atoi _))))
  emit_criteria-Runs (QueryCriteria.negated e) q st p =
      Runs-append atoi (emit_criteria show e) _ _ _ _ (emit_criteria-Runs e q st p)
        (Runs-token atoi _ _ _ _ _ (λ t. refl) (Runs-nil atoi _))
