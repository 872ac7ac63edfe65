-- ===== src/Node/Api/Groups.antt =====
-- The groups of a compound publication.
use concat.Base.{
  true, ◌<◌, append_assoc, append-nil, All-append_one, ℕ, zero, suc, ◌+◌, ◌≤◌, ◌≡◌, refl, sym, ap,
  ◌∙◌, arith, List, [], ◌∷◌, ◌++◌, Result, ok, ◌>>=◌, >>=-eq-ok, length, length-append, All,
}
use concat.Base.Int.{pos}
use concat.Query.Statement.{SimpleStatement}
use concat.Node.Api.{Requests, decode_all, group_loop, with_rest, groups, grouped}

abbrev pub flatten : List (List SimpleStatement) → List SimpleStatement
flatten [] = []
flatten (g ∷ gs) = g ++ flatten gs

-- Each group is full but for the last, which is not empty.
abbrev pub AreGroups : ℕ → List (List SimpleStatement) → Type 0
AreGroups clen [] = Unit
AreGroups clen (g ∷ []) = (1 ≤ length g) × (length g ≤ clen)
AreGroups clen (g ∷ h ∷ gs) = (length g ≡ clen) × AreGroups clen (h ∷ gs)

flatten-append_one :
    (gs : List (List SimpleStatement)) (g : List SimpleStatement)
    → flatten (gs ++ (g ∷ [])) ≡ flatten gs ++ g
flatten-append_one [] g = append-nil g
flatten-append_one (h ∷ gs) g =
    ap (λ r. h ++ r) (flatten-append_one gs g) ∙ sym (append_assoc h (flatten gs) g)

abbrev Full : ℕ → List (List SimpleStatement) → Type 0
Full clen gs = All (λ g. length g ≡ clen) gs

-- What the loops give from a group and the groups before it.
record Looped (last : ℕ) (all : List SimpleStatement)
    (r : Result (List SimpleStatement × List (List SimpleStatement))) : Type 0 where
  body : List SimpleStatement
  stmts : List (List SimpleStatement)
  done : r ≡ ok (body, stmts)
  full : Full (suc last) stmts
  short : length body ≤ last
  same : flatten stmts ++ body ≡ all

group_loop-Looped :
    (last : ℕ) (dec : List (Result SimpleStatement)) (ds : List SimpleStatement) (left : ℕ)
    (body : List SimpleStatement) (stmts : List (List SimpleStatement))
    → decode_all dec ≡ ok ds
    → length body + left ≡ last
    → Full (suc last) stmts
    → Looped last (flatten stmts ++ (body ++ ds)) (group_loop last dec left body stmts)
unfolding decode_all group_loop
group_loop-Looped last [] ds left body stmts e n f =
    let is : [] ≡ ds = ground arith in
    record {
      body = body;
      stmts = stmts;
      done = refl;
      full = f;
      short = omega (arith, n);
      same = ap (λ r. flatten stmts ++ r) (sym (append-nil body) ∙ ap (λ d. body ++ d) is);
    }
group_loop-Looped last (r ∷ dec) ds zero body stmts e n f =
    let (s, e1, e2) = >>=-eq-ok r _ e in
    let (ds', e3, e4) = >>=-eq-ok (decode_all dec) _ e2 in
    let is : s ∷ ds' ≡ ds = ground arith in
    let long : length (body ++ (s ∷ [])) ≡ suc last =
      omega (arith, n, length-append body (s ∷ [])) in
    let l =
      group_loop-Looped last dec ds' last [] (stmts ++ ((body ++ (s ∷ [])) ∷ [])) e3 (omega arith)
        (All-append_one (λ g. length g ≡ suc last) stmts (body ++ (s ∷ [])) f long) in
    record {
      body = l.body;
      stmts = l.stmts;
      done =
          ap
            (λ x.
              x >>= λ sbody. group_loop last dec last [] (stmts ++ ((body ++ (sbody ∷ [])) ∷ [])))
            e1
          ∙ l.done;
      full = l.full;
      short = l.short;
      same =
          l.same
          ∙ ap (λ r. r ++ ds') (flatten-append_one stmts (body ++ (s ∷ [])))
          ∙ append_assoc (flatten stmts) (body ++ (s ∷ [])) ds'
          ∙ ap (λ r. flatten stmts ++ r) (append_assoc body (s ∷ []) ds' ∙ ap (λ d. body ++ d) is);
    }
group_loop-Looped last (r ∷ dec) ds (suc left) body stmts e n f =
    let (s, e1, e2) = >>=-eq-ok r _ e in
    let (ds', e3, e4) = >>=-eq-ok (decode_all dec) _ e2 in
    let is : s ∷ ds' ≡ ds = ground arith in
    let l =
      group_loop-Looped last dec ds' left (body ++ (s ∷ [])) stmts e3
        (omega (arith, n, length-append body (s ∷ []))) f in
    record {
      body = l.body;
      stmts = l.stmts;
      done =
          ap (λ x. x >>= λ sbody. group_loop last dec left (body ++ (sbody ∷ [])) stmts) e1
          ∙ l.done;
      full = l.full;
      short = l.short;
      same =
          l.same
          ∙ ap (λ r. flatten stmts ++ r) (append_assoc body (s ∷ []) ds' ∙ ap (λ d. body ++ d) is);
    }

with_rest-AreGroups :
    (last : ℕ) (stmts : List (List SimpleStatement)) (body : List SimpleStatement)
    → Full (suc last) stmts
    → length body ≤ last
    → AreGroups (suc last) (with_rest (body, stmts))
      × (flatten (with_rest (body, stmts)) ≡ flatten stmts ++ body)
with_rest-AreGroups last stmts [] f short = (all_full stmts f, sym (append-nil (flatten stmts)))
  where
    all_full : (gs : List (List SimpleStatement)) → Full (suc last) gs → AreGroups (suc last) gs
    all_full [] f = tt
    all_full (g ∷ []) (e, _) = (omega (arith, e), omega (arith, e))
    all_full (g ∷ h ∷ gs) (e, f) = (e, all_full (h ∷ gs) f)
with_rest-AreGroups last stmts (s ∷ body) f short =
    (one_more stmts f, flatten-append_one stmts (s ∷ body))
  where
    one_more :
        (gs : List (List SimpleStatement))
        → Full (suc last) gs
        → AreGroups (suc last) (gs ++ ((s ∷ body) ∷ []))
    one_more [] f = (omega arith, omega (arith, short))
    one_more (g ∷ []) (e, f) = (e, (omega arith, omega (arith, short)))
    one_more (g ∷ h ∷ gs) (e, f) = (e, one_more (h ∷ gs) f)

groups-AreGroups :
    (last : ℕ) (dec : List (Result SimpleStatement)) (ds : List SimpleStatement)
    → decode_all dec ≡ ok ds
    → (gs : List (List SimpleStatement)) × (groups last dec ≡ ok gs)
      × (flatten gs ≡ ds)
      × AreGroups (suc last) gs
unfolding groups
groups-AreGroups last dec ds e =
    let l = group_loop-Looped last dec ds last [] [] e (omega arith) tt in
    let (are, flat) = with_rest-AreGroups last l.stmts l.body l.full l.short in
    (with_rest (l.body, l.stmts), rw l.done refl, flat ∙ l.same, are)

-- A body that decodes is grouped for every length above zero that `make` can allocate: the groups hold
-- its statements in order, each group but the last has exactly that length, and the last has at least
-- one statement and no more than the length.
pub grouped-AreGroups :
    (rq : Requests) (clen : ℕ) (dec : List (Result SimpleStatement)) (ds : List SimpleStatement)
    → 0 < clen
    → rq.can_make clen ≡ true
    → decode_all dec ≡ ok ds
    → (gs : List (List SimpleStatement)) × (grouped rq (pos clen) dec ≡ ok gs)
      × (flatten gs ≡ ds)
      × AreGroups clen gs
unfolding grouped
grouped-AreGroups rq zero dec ds h m e = ground arith
grouped-AreGroups rq (suc last) dec ds h m e = rw m (groups-AreGroups last dec ds e)
