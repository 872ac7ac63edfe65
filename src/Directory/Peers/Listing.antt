-- ===== src/Directory/Peers/Listing.antt =====
-- What the listings of a directory hold.
use concat.Base.{
  ◌≡◌, ◌≢◌, refl, Text, text_eq, text_dec, codes, Bool, true, false, ◌||◌, none, some, List, [],
  ◌∷◌, ◌++◌, ok, arith, any, contains, contains-insert, insert, Nodup, Nodup-insert, In, has_prefix,
  has_suffix, drop_last_two, Bool-cases, inl, inr, ◌⊎◌,
}
use concat.Base.Dict.{lookup, NodupKeys}
use concat.Query.Filter.Namespace.{
  Pattern, everything, family, exactly, pattern_text, drop_last-family, drop_last-dot,
  family_not_star,
}
use concat.Directory.Types.{PeerRecord, Peers}
use concat.Directory.Peers.{
  PeerFilter, peer_filter, some_has_prefix, some_equals, list_peers_filter, list_peers,
  add_namespaces, collect_namespaces, list_namespaces,
}

-- The namespaces that a peer publishes.
abbrev pub namespaces_of : PeerRecord → List Text
namespaces_of rec = elim (rec.publisher) [ none ↦ [] | some publisher ↦ publisher.namespaces ]

-- A peer provides a pattern of namespaces.
pub provides : Pattern → PeerRecord → Bool
provides everything rec = true
provides (family p) rec = any (λ ns. has_prefix ns p) (namespaces_of rec)
provides (exactly ns) rec = contains (namespaces_of rec) ns

-- The patterns that a request can name.
abbrev pub IsRequest : Pattern → Type 0
IsRequest everything = Unit
IsRequest (family p) = Unit
IsRequest (exactly ns) = (ns ≢ []) × (ns ≢ codes "*") × (has_suffix ns (codes ".*") ≡ false)

some_has_prefix-eq :
    (nss : List Text) (p : Text) → some_has_prefix nss p ≡ any (λ ns. has_prefix ns p) nss
unfolding some_has_prefix
some_has_prefix-eq [] p = refl
some_has_prefix-eq (ns ∷ nss) p = ground (arith, some_has_prefix-eq nss p)

some_equals-eq : (nss : List Text) (ns : Text) → some_equals nss ns ≡ contains nss ns
unfolding some_equals
some_equals-eq [] ns = refl
some_equals-eq (x ∷ nss) ns = ground (arith, some_equals-eq nss ns)

has_suffix-family : (p : Text) → has_suffix (p ++ codes ".*") (codes ".*") ≡ true
unfolding has_suffix text_dec
has_suffix-family [] = refl
has_suffix-family (c ∷ p) = ground (arith, has_suffix-family p)

family_not_empty : (p : Text) → p ++ codes ".*" ≢ []
family_not_empty [] e = ground arith
family_not_empty (c ∷ p) e = ground arith

-- The filter of a request answers what the pattern says.
peer_filter-provides :
    (pat : Pattern)
    → IsRequest pat
    → (f : PeerFilter) × (peer_filter (pattern_text pat) ≡ ok f)
      × ((rec : PeerRecord) → f rec ≡ provides pat rec)
unfolding peer_filter provides drop_last_two
peer_filter-provides everything r = (λ rec. true, unfold text_dec in refl, λ rec. refl)
peer_filter-provides (family p) r = (
  λ rec. elim (rec.publisher) [
    | none ↦ false
    | some publisher ↦ some_has_prefix publisher.namespaces p
  ],
  ground (
    arith,
    family_not_star p,
    family_not_empty p,
    has_suffix-family p,
    drop_last-family p,
    drop_last-dot p,
  ),
  λ rec. ground (arith, some_has_prefix-eq (namespaces_of rec) p),
)
peer_filter-provides (exactly ns) (nonempty, plain, single) = (
  λ rec. elim (rec.publisher) [
    | none ↦ false
    | some publisher ↦ some_equals publisher.namespaces ns
  ],
  ground arith,
  λ rec. ground (arith, some_equals-eq (namespaces_of rec) ns),
)

-- A peer of the directory that provides a pattern, printed.
pub record Listed (pretty : Text → Text) (pat : Pattern) (peers : Peers) (x : Text) : Type 0 where
  pub pid : Text
  pub rec : PeerRecord
  pub found : lookup peers pid ≡ some rec
  pub provided : provides pat rec ≡ true
  pub printed : x ≡ pretty pid

module _ (pretty : Text → Text) (pat : Pattern) (f : PeerFilter)
    (answers : (rec : PeerRecord) → f rec ≡ provides pat rec) where
  Listed-cons :
      (pid : Text) (rec : PeerRecord) (peers : Peers) (x : Text)
      → lookup peers pid ≡ none
      → Listed pretty pat peers x
      → Listed pretty pat ((pid, rec) ∷ peers) x
  unfolding lookup
  Listed-cons pid rec peers x fresh l = record {
    pid = l.pid;
    rec = l.rec;
    found = ground (arith, l.found);
    provided = l.provided;
    printed = l.printed;
  }

  filtered-In :
      (x : Text) (peers : Peers)
      → NodupKeys peers
      → In x (list_peers_filter pretty f peers)
      → Listed pretty pat peers x
  unfolding list_peers_filter lookup
  filtered-In x [] u i = absurd i
  filtered-In x ((pid, rec) ∷ peers) (fresh, u) i = elim (Bool-cases (f rec)) [
    | inl t ↦
        let j : (x ≡ pretty pid) ⊎ In x (list_peers_filter pretty f peers) = rw t at i in
        elim j [
          | inl e ↦ record {
            pid = pid;
            rec = rec;
            found = ground arith;
            provided = ground (arith, answers rec);
            printed = e;
          }
          | inr k ↦ Listed-cons pid rec peers x fresh (filtered-In x peers u k)
        ]
    | inr t ↦
        let k : In x (list_peers_filter pretty f peers) = rw t at i in
        Listed-cons pid rec peers x fresh (filtered-In x peers u k)
  ]

  In-filtered :
      (pid : Text) (rec : PeerRecord) (peers : Peers)
      → lookup peers pid ≡ some rec
      → provides pat rec ≡ true
      → In (pretty pid) (list_peers_filter pretty f peers)
  unfolding list_peers_filter lookup
  In-filtered pid rec [] h p = cc
  In-filtered pid rec ((j, r) ∷ peers) h p = elim (text_dec pid j) [
    | yes e ↦ ground (arith, answers r)
    | no n ↦ ground (arith, In-filtered pid rec peers (ground arith) p)
  ]

-- A listing succeeds, and holds exactly the peers that provide what is asked for: all, those with a
-- namespace that begins with the prefix, or those with the one namespace.
pub list_peers-Listed :
    (pretty : Text → Text) (pat : Pattern) (peers : Peers)
    → IsRequest pat
    → NodupKeys peers
    → (l : List Text) × (list_peers pretty (pattern_text pat) peers ≡ ok l)
      × ((x : Text) → In x l → Listed pretty pat peers x)
      × ((x : Text) → Listed pretty pat peers x → In x l)
unfolding list_peers
list_peers-Listed pretty pat peers r u =
    let (f, made, answers) = peer_filter-provides pat r in
    (
      list_peers_filter pretty f peers,
      rw (made, list_peers),
      λ x i. filtered-In pretty pat f answers x peers u i,
      λ x l. rw (l.printed) (In-filtered pretty pat f answers l.pid l.rec peers l.found l.provided),
    )

contains-add_namespaces :
    (nsset nss : List Text) (ns : Text)
    → contains (add_namespaces nsset nss) ns ≡ (contains nsset ns || contains nss ns)
unfolding add_namespaces
contains-add_namespaces nsset [] ns = ground arith
contains-add_namespaces nsset (x ∷ nss) ns =
    ground (arith, contains-add_namespaces (insert nsset x) nss ns, contains-insert nsset x ns)

add_namespaces-Nodup : (nsset nss : List Text) → Nodup nsset → Nodup (add_namespaces nsset nss)
unfolding add_namespaces
add_namespaces-Nodup nsset [] u = u
add_namespaces-Nodup nsset (x ∷ nss) u =
    add_namespaces-Nodup (insert nsset x) nss (Nodup-insert nsset x u)

-- Some peer publishes a namespace.
pub published : Text → Peers → Bool
published ns [] = false
published ns ((_, rec) ∷ peers) = contains (namespaces_of rec) ns || published ns peers

contains-collect_namespaces :
    (nsset : List Text) (peers : Peers) (ns : Text)
    → contains (collect_namespaces nsset peers) ns ≡ (contains nsset ns || published ns peers)
unfolding collect_namespaces published
contains-collect_namespaces nsset [] ns = ground arith
contains-collect_namespaces nsset ((_, rec) ∷ peers) ns = ground (
  arith,
  contains-collect_namespaces nsset peers ns,
  contains-collect_namespaces (add_namespaces nsset (namespaces_of rec)) peers ns,
  contains-add_namespaces nsset (namespaces_of rec) ns,
)

collect_namespaces-Nodup :
    (nsset : List Text) (peers : Peers) → Nodup nsset → Nodup (collect_namespaces nsset peers)
unfolding collect_namespaces
collect_namespaces-Nodup nsset [] u = u
collect_namespaces-Nodup nsset ((_, rec) ∷ peers) u = ground (
  arith,
  collect_namespaces-Nodup nsset peers u,
  collect_namespaces-Nodup (add_namespaces nsset (namespaces_of rec)) peers,
  add_namespaces-Nodup nsset (namespaces_of rec) u,
)

-- The list of namespaces holds what some peer publishes, nothing else, and nothing twice.
pub list_namespaces-published :
    (peers : Peers)
    → ((ns : Text) → contains (list_namespaces peers) ns ≡ published ns peers)
      × Nodup (list_namespaces peers)
unfolding list_namespaces
list_namespaces-published peers =
    (contains-collect_namespaces [] peers, collect_namespaces-Nodup [] peers tt)
