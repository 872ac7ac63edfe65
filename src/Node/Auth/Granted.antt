-- ===== src/Node/Auth/Granted.antt =====
-- What the rules of a peer grant, in words of the namespaces rather than of the code.
use concat.Base.{
  ◌≡◌, ◌≢◌, refl, sym, ap, subst, ◌==◌, ◌↔◌, ◌⊎◌, inl, inr, Bool, true, false, Text, text_eq,
  text_dec, nat_eq, codes, List, [], ◌∷◌, ◌++◌, Result, ok, ◌>>=◌, arith, All, has_prefix,
  has_suffix, drop_last, drop_last_two, has_prefix-append, has_prefix→append, if◌then◌else◌,
  Bool-cases,
}
use mathlib.Core.Bool.{false≢true}
use concat.Base.Dict.{lookup-put, lookup-remove}
use concat.Query.Filter.Namespace.{drop_last-family, drop_last-dot, family_not_star}
use concat.Node.Auth.{
  PeerAuth, rule_allows, authorize_allow, get_rules, authorize_each, authorize_rules, authorize,
  set_rules, clear_rules,
}

-- A rule is `*`, a prefix of the namespace with `.*` behind it, or the namespace itself.
abbrev pub Admits : Text → Text → Type 0
Admits ns rule =
    (rule ≡ codes "*")
    ⊎ ((p : Text) × (rest : Text) × (rule ≡ p ++ codes ".*") × (ns ≡ p ++ rest))
    ⊎ (rule ≡ ns)

abbrev pub Some : List Text → Text → Type 0
Some [] ns = ⊥
Some (rule ∷ rules) ns = Admits ns rule ⊎ Some rules ns

-- A test that answers, and answers what a proposition says.
abbrev pub Answers : Result Bool → Type 0 → Type 0
Answers r P = (b : Bool) × (r ≡ ok b) × ((b ≡ true) ↔ P)

has_suffix→append : (s t : Text) → has_suffix s t ≡ true → (p : Text) × (s ≡ p ++ t)
unfolding has_suffix
has_suffix→append [] t h = ([], ground arith)
has_suffix→append (c ∷ s) t h = elim (text_dec (c ∷ s) t) [
  | yes same ↦ ([], same)
  | no differs ↦ let (p, e) = has_suffix→append s t (ground arith) in (c ∷ p, ap (λ r. c ∷ r) e)
]

has_suffix-append : (p t : Text) → has_suffix (p ++ t) t ≡ true
unfolding has_suffix
has_suffix-append [] [] = ground arith
has_suffix-append [] (x ∷ t) = ground arith
has_suffix-append (c ∷ p) t = ground (arith, has_suffix-append p t)

family-inj : (p q : Text) → p ++ codes ".*" ≡ q ++ codes ".*" → p ≡ q
family-inj p q e =
    let dots : p ++ codes "." ≡ q ++ codes "." =
      ground (arith, ap drop_last e, drop_last-family p, drop_last-family q) in
    ground (arith, ap drop_last dots, drop_last-dot p, drop_last-dot q)

-- A rule of a family admits the namespaces that its prefix begins.
family-Answers :
    (p ns : Text) → Answers (rule_allows (p ++ codes ".*") ns) (Admits ns (p ++ codes ".*"))
unfolding rule_allows drop_last_two
family-Answers p ns = (
  has_prefix ns p,
  ground (
    arith,
    family_not_star p,
    has_suffix-append p (codes ".*"),
    drop_last-family p,
    drop_last-dot p,
  ),
  ((λ h. let (rest, e) = has_prefix→append ns p h in inr (inl (p, rest, refl, e))), (λ a. back a)),
)
  where
    back : Admits ns (p ++ codes ".*") → has_prefix ns p ≡ true
    back (inl star) = absurd (family_not_star p star)
    back (inr (inl (q, rest, e, is))) =
        let same : p ≡ q = family-inj p q e in rw (same, is, has_prefix-append q rest)
    back (inr (inr same)) = rw (← same, has_prefix-append p (codes ".*"))

rule_allows-Answers : (rule ns : Text) → Answers (rule_allows rule ns) (Admits ns rule)
unfolding rule_allows
rule_allows-Answers rule ns = elim (text_dec rule (codes "*")) [
  | yes star ↦ (true, ground arith, ((λ _. inl star), (λ _. refl)))
  | no other ↦ elim (Bool-cases (has_suffix rule (codes ".*"))) [
    | inl h ↦
        let (p, e) = has_suffix→append rule (codes ".*") h in
        subst (λ r. Answers (rule_allows r ns) (Admits ns r)) (sym e) (family-Answers p ns)
    | inr h ↦ (rule == ns, ground arith, ((λ t. inr (inr (ground arith))), (λ a. plain other h a)))
  ]
]
  where
    plain :
        rule ≢ codes "*"
        → has_suffix rule (codes ".*") ≡ false
        → Admits ns rule
        → (rule == ns) ≡ true
    plain other h (inl star) = absurd (other star)
    plain other h (inr (inl (p, rest, e, is))) = ground (arith, e, has_suffix-append p (codes ".*"))
    plain other h (inr (inr same)) = ground (arith, same)

authorize_allow-Answers :
    (rules : List Text) (ns : Text) → Answers (authorize_allow rules ns) (Some rules ns)
unfolding authorize_allow
authorize_allow-Answers [] ns = (false, refl, ((λ h. ground arith), (λ n. absurd n)))
authorize_allow-Answers (rule ∷ rules) ns =
    first (rule_allows-Answers rule ns) (authorize_allow-Answers rules ns)
  where
    first :
        {P Q : Type 0} {r s : Result Bool}
        → Answers r P
        → Answers s Q
        → Answers (r >>= λ allowed. if allowed then ok true else s) (P ⊎ Q)
    first (true, e, (to, from)) (c, e', (to', from')) =
        (true, ground (arith, e), ((λ h. inl (to refl)), (λ h. refl)))
    first (false, e, (to, from)) (c, e', (to', from')) = (
      c,
      ground (arith, e, e'),
      (
        (λ h. inr (to' h)),
        (λ h. elim h [ inl p ↦ absurd (false≢true (from p)) | inr q ↦ from' q ]),
      ),
    )

authorize_each-Answers :
    (rules nss : List Text) → Answers (authorize_each rules nss) (All (Some rules) nss)
unfolding authorize_each
authorize_each-Answers rules [] = (true, refl, ((λ h. tt), (λ h. refl)))
authorize_each-Answers rules (ns ∷ nss) =
    both (authorize_allow-Answers rules ns) (authorize_each-Answers rules nss)
  where
    both :
        {P Q : Type 0} {r s : Result Bool}
        → Answers r P
        → Answers s Q
        → Answers (r >>= λ allowed. if allowed then s else ok false) (P × Q)
    both (false, e, (to, from)) (c, e', (to', from')) =
        (false, ground (arith, e), ((λ h. ground arith), (λ h. from h.0)))
    both (true, e, (to, from)) (c, e', (to', from')) =
        (c, ground (arith, e, e'), ((λ h. (to refl, to' h)), (λ h. from' h.1)))

-- A peer's authorization always has an answer. It is granted for a request that names a namespace,
-- where each namespace it names is admitted by some rule of the peer: the rule is `*`, the
-- namespace itself, or a prefix of the namespace with `.*` behind it.
pub authorize-Answers :
    (peers : PeerAuth) (pid : Text) (nss : List Text)
    → Answers (authorize peers pid nss) ((nss ≢ []) × All (Some (get_rules peers pid)) nss)
unfolding authorize
authorize-Answers peers pid [] = (false, refl, ((λ h. ground arith), (λ h. absurd (h.0 refl))))
authorize-Answers peers pid (ns ∷ nss) = by_rules (get_rules peers pid)
  where
    by_rules :
        (rules : List Text)
        → Answers
            (authorize_rules rules (ns ∷ nss))
            (((ns ∷ nss) ≢ []) × All (Some rules) (ns ∷ nss))
    by_rules [] = (false, refl, ((λ h. ground arith), (λ h. absurd (h.1.0))))
    by_rules (rule ∷ rules) =
        let (b, e, (to, from)) = authorize_each-Answers (rule ∷ rules) (ns ∷ nss) in
        (b, e, ((λ h. ((λ z. ground arith), to h)), (λ h. from h.1)))

-- For a request that names a namespace, setting the rules of a peer makes its authorization that of
-- the new rules, clearing them refuses it, and neither changes the authorization of another peer.
pub authorize-set_rules-clear_rules :
    (peers : PeerAuth) (pid other ns : Text) (rules nss : List Text)
    → (authorize (set_rules peers pid rules) other (ns ∷ nss) ≡ (
        if other == pid
        then authorize_rules rules (ns ∷ nss)
        else authorize peers other (ns ∷ nss)))
      × (authorize (clear_rules peers pid) other (ns ∷ nss)
          ≡ (if other == pid then ok false else authorize peers other (ns ∷ nss)))
unfolding authorize get_rules set_rules clear_rules authorize_rules
authorize-set_rules-clear_rules peers pid other ns rules nss =
    ground (arith, lookup-put peers pid rules other, lookup-remove peers pid other)
