-- ===== src/Directory/Serve.antt =====
-- mcdir/proto.go: the handlers that answer from the directory, and mcnode/net.go: the client of a
-- lookup. A stream accepts a number of messages and then fails.
pub mod Lookup
pub mod Resolve
use concat.Base.{
  ℕ, zero, suc, Text, text_eq, Option, none, some, List, [], ◌∷◌, Error, Result, ok, err, panic,
  unknown_peer, node_offline, lookup_error, ◌>>=◌, ◌+◌, if◌then◌else◌, ltb, length,
}
use concat.Mc.Message.{PeerInfo, PbPeerInfo, Codec, pb_from_peer_info, pb_to_peer_info}
use concat.Directory.Types.{Peers, Manifest}
use concat.Directory.Manifests.{ManifestStore, lookup_entity}
use concat.Directory.Peers.{lookup_peer, list_peers, list_namespaces}

-- The loop of each handler: a request is answered, or ends the loop, as does a write that fails.
unfoldable pub serve : {Req Res : Type 0} → (Req → Option Res) → ℕ → List Req → List Res
serve answer room [] = []
serve answer zero (req ∷ reqs) = []
serve answer (suc room) (req ∷ reqs) = elim (answer req) [
  | none ↦ []
  | some res ↦ res ∷ serve answer room reqs
]

-- The value of a call, where it has one; a panic ends the handler as well.
abbrev pub value {ℓ} : {A : Type ℓ} → Result A → Option A
value (ok a) = some a
value (err e) = none
value panic = none

module _ (c : Codec) where
  abbrev pub encoded : Option PeerInfo → Option PbPeerInfo
  encoded none = none
  encoded (some pinfo) = some (pb_from_peer_info c pinfo)

  -- The answer of lookupHandler to an identity, from the peers of the time.
  unfoldable pub lookup_answer : Text × Peers → Option (Option PbPeerInfo)
  lookup_answer (id, peers) = elim (c.decode_id id) [
    | ok xid ↦ some (encoded (lookup_peer xid peers))
    | err e ↦ none
    | panic ↦ none
  ]

  unfoldable pub lookup_handler : ℕ → List (Text × Peers) → List (Option PbPeerInfo)
  unfolding serve lookup_answer
  lookup_handler room reqs = serve lookup_answer room reqs

  -- listHandler
  unfoldable pub list_handler : ℕ → List (Text × Peers) → List (List Text)
  unfolding serve
  list_handler room reqs = serve (λ req. value (list_peers c.pretty req.0 req.1)) room reqs

  -- doDirLookupImpl behind the read of the response.
  unfoldable pub lookup_response : Result (Option PbPeerInfo) → Result PeerInfo
  lookup_response panic = panic
  lookup_response (err e) = err e
  lookup_response (ok none) = err unknown_peer
  lookup_response (ok (some pbpi)) = pb_to_peer_info c pbpi

  -- doDirLookupImpl, with the outcomes of the connection and the write, and the read.
  unfoldable pub dir_lookup :
      Result (Unit {0}) → Result (Unit {0}) → Result (Option PbPeerInfo) → Result PeerInfo
  unfolding lookup_response
  dir_lookup connected written read = do _ ← connected; _ ← written; lookup_response read

-- listmfHandler
unfoldable pub listmf_handler : ℕ → List (Text × ManifestStore) → List (List Manifest)
unfolding serve
listmf_handler room reqs = serve (λ req. value (lookup_entity req.0 req.1)) room reqs

-- listnsHandler
unfoldable pub listns_handler : ℕ → List Peers → List (List Text)
unfolding serve
listns_handler room reqs = serve (λ peers. some (list_namespaces peers)) room reqs

-- What a worker of doLookupImpl sends, or the end of the context.
pub data Arrival : Type 0 where
  found : PeerInfo → Arrival
  failed : Error → Arrival
  expired : Arrival

-- The error of a lookup that found nothing.
abbrev pub unresolved : ℕ → ℕ → Result PeerInfo
unresolved errcount workers = if ltb errcount workers then err unknown_peer else err lookup_error

-- The loop of doLookupImpl over what arrives, of which there is one for each worker.
unfoldable pub lookup_loop : ℕ → List Arrival → ℕ → Result PeerInfo
lookup_loop workers [] errcount = unresolved errcount workers
lookup_loop workers (found pinfo ∷ rest) errcount = ok pinfo
lookup_loop workers (failed unknown_peer ∷ rest) errcount = lookup_loop workers rest errcount
lookup_loop workers (failed e ∷ rest) errcount = lookup_loop workers rest (errcount + 1)
lookup_loop workers (expired ∷ rest) errcount = unresolved errcount workers
