-- ===== src/Directory/Peers.antt =====
-- mcdir/dir.go: the peers of a directory. The mutex makes each operation atomic.
pub mod Listing
use concat.Base.{
  Text, text_eq, codes, ◌==◌, Bool, true, false, Option, none, some, List, [], ◌∷◌, Result, ok, err,
  panic, insert, has_prefix, has_suffix, drop_last_two, if◌then◌else◌,
}
use concat.Base.Dict.{Dict, lookup, put, remove}
use concat.Mc.Message.{PeerInfo}
use concat.Directory.Types.{PublisherInfo, PeerRecord, Peers}

unfoldable pub register_peer : PeerRecord → Peers → Peers
register_peer rec peers = put peers rec.peer.id rec

unfoldable pub unregister_peer : Text → Peers → Peers
unregister_peer pid peers = remove peers pid

unfoldable pub lookup_peer : Text → Peers → Option PeerInfo
lookup_peer pid peers = elim (lookup peers pid) [ none ↦ none | some rec ↦ some rec.peer ]

-- `for _, xns := range rec.publisher.Namespaces { if strings.HasPrefix(xns, pre) { return true } }`
unfoldable pub some_has_prefix : List Text → Text → Bool
some_has_prefix [] pre = false
some_has_prefix (xns ∷ rest) pre = if has_prefix xns pre then true else some_has_prefix rest pre

-- `for _, xns := range rec.publisher.Namespaces { if ns == xns { return true } }`
unfoldable pub some_equals : List Text → Text → Bool
some_equals [] ns = false
some_equals (xns ∷ rest) ns = if ns == xns then true else some_equals rest ns

abbrev pub PeerFilter : Type 0
PeerFilter = PeerRecord → Bool

-- The filter that listPeers picks for a namespace.
unfoldable pub peer_filter : Text → Result PeerFilter
unfolding some_has_prefix some_equals
peer_filter ns =
    if ns == []
    then ok (λ rec. true)
    else if ns == codes "*"
    then ok (λ rec. true)
    else if has_suffix ns (codes ".*")
    then (elim (drop_last_two ns) [
      | none ↦ panic
      | some pre ↦ ok (λ rec. elim (rec.publisher) [
        | none ↦ false
        | some publisher ↦ some_has_prefix publisher.namespaces pre
      ])
    ])
    else ok (λ rec. elim (rec.publisher) [
      | none ↦ false
      | some publisher ↦ some_equals publisher.namespaces ns
    ])

module _ (pretty : Text → Text) where
  unfoldable pub list_peers_filter : PeerFilter → Peers → List Text
  list_peers_filter filter [] = []
  list_peers_filter filter ((pid, rec) ∷ peers) =
      let rest = list_peers_filter filter peers in if filter rec then pretty pid ∷ rest else rest

  unfoldable pub list_peers : Text → Peers → Result (List Text)
  list_peers ns peers = elim (peer_filter ns) [
    | ok filter ↦ ok (list_peers_filter filter peers)
    | err e ↦ err e
    | panic ↦ panic
  ]

unfoldable pub add_namespaces : List Text → List Text → List Text
add_namespaces nsset [] = nsset
add_namespaces nsset (ns ∷ rest) = add_namespaces (insert nsset ns) rest

-- The loop of listNamespaces over the peers.
unfoldable pub collect_namespaces : List Text → Peers → List Text
unfolding add_namespaces
collect_namespaces nsset [] = nsset
collect_namespaces nsset ((pid, rec) ∷ peers) = elim (rec.publisher) [
  | none ↦ collect_namespaces nsset peers
  | some publisher ↦ collect_namespaces (add_namespaces nsset publisher.namespaces) peers
]

unfoldable pub list_namespaces : Peers → List Text
unfolding collect_namespaces
list_namespaces peers = collect_namespaces [] peers
