-- ===== src/Directory/Handler/Session.antt =====
-- What a registration leaves behind when its stream ends.
use concat.Base.{
  ◌≡◌, refl, ◌∙◌, Text, text_eq, ◌==◌, false, Option, none, some, List, [], ◌∷◌, Result, ok, err,
  panic, arith, if◌then◌else◌, Bool-cases, inl, inr,
}
use concat.Base.Dict.{lookup, lookup-put, lookup-remove, unless}
use concat.Mc.Message.{PeerInfo, PbPeerInfo, Codec, pb_to_peer_info}
use concat.Directory.Types.{Manifest}
use concat.Directory.Peers.{register_peer, unregister_peer}
use concat.Directory.Manifests.{ManifestStore, Services}
use concat.Directory.Manifests.Sources.{Grown, Grown-refl, put_all-Grown, remove_source-Grown}
use concat.Directory.Handler.{
  RegisterPeer, Directory, put_manifests, register_decoded, register_info, register_request,
  register_loop, leave, register_handler,
}
use concat.Directory.Handler.Invariant.{IsWell}

module _ (c : Codec) (sv : Services) (pid : Text) (old : Directory) where
  -- A directory that differs from the old one by what the peer sent.
  record Ahead (dir : Directory) : Type 0 where
    peers : (j : Text) → (j == pid) ≡ false → lookup dir.peers j ≡ lookup old.peers j
    mfs : Grown pid old.mfs.mf dir.mfs.mf

  put_manifests-Grown :
      (lst : List Manifest) (mfs : ManifestStore)
      → Grown pid old.mfs.mf mfs.mf
      → Grown pid old.mfs.mf (put_manifests c sv pid lst mfs).mf
  unfolding put_manifests
  put_manifests-Grown [] mfs g = g
  put_manifests-Grown (mf ∷ lst) mfs g = put_all-Grown sv pid old.mfs.mf (mf ∷ lst) mfs g

  abbrev MaybeAhead : Option Directory → Type 0
  MaybeAhead none = Unit
  MaybeAhead (some dir) = Ahead dir

  register_decoded-Ahead :
      (req : RegisterPeer) (r : Result PeerInfo) (dir : Directory)
      → Ahead dir
      → MaybeAhead (register_decoded c sv pid req r dir)
  unfolding register_decoded register_peer
  register_decoded-Ahead req (ok pinfo) dir a = elim (Bool-cases (pinfo.id == pid)) [
    | inl own ↦ rw own (record {
      peers = λ j differs. lookup-put dir.peers pinfo.id _ j ∙ ground (arith, a.peers j differs);
      mfs = put_manifests-Grown req.manifest dir.mfs a.mfs;
    })
    | inr other ↦ rw other tt
  ]
  register_decoded-Ahead req (err e) dir a = tt
  register_decoded-Ahead req panic dir a = tt

  register_info-Ahead :
      (req : RegisterPeer) (info : Option PbPeerInfo) (dir : Directory)
      → Ahead dir
      → MaybeAhead (register_info c sv pid req info dir)
  unfolding register_info
  register_info-Ahead req none dir a = tt
  register_info-Ahead req (some info) dir a =
      register_decoded-Ahead req (pb_to_peer_info c info) dir a

  register_loop-Ahead :
      (reqs : List RegisterPeer) (dir : Directory)
      → Ahead dir
      → Ahead (register_loop c sv pid reqs dir)
  unfolding register_loop register_request
  register_loop-Ahead [] dir a = a
  register_loop-Ahead (req ∷ reqs) dir a =
      next (register_info c sv pid req req.info dir) (register_info-Ahead req req.info dir a)
        (λ dir' b. register_loop-Ahead reqs dir' b)
    where
      next :
          (o : Option Directory)
          → MaybeAhead o
          → ((dir' : Directory) → Ahead dir' → Ahead (register_loop c sv pid reqs dir'))
          → Ahead (elim o [ none ↦ dir | some dir' ↦ register_loop c sv pid reqs dir' ])
      next none t rest = a
      next (some dir') b rest = rest dir' b

  -- Once the handler of a peer's registration is done, whatever requests it read: the peer is not
  -- listed, every other peer is listed as before, and the manifests are those from before
  -- without the ones of the peer. The directory before has to be as its handlers keep it.
  pub register_handler-leaves :
      (reqs : List RegisterPeer)
      → IsWell c sv old
      → ((j : Text)
          → lookup (register_handler c sv pid reqs old).peers j
            ≡ (if j == pid then none else lookup old.peers j))
        × ((h : Text)
            → lookup (register_handler c sv pid reqs old).mfs.mf h
              ≡ unless (λ r. r.src == pid) (lookup old.mfs.mf h))
  unfolding register_handler leave unregister_peer
  register_handler-leaves reqs w =
      let a =
        register_loop-Ahead reqs old
          (record { peers = λ j differs. refl; mfs = Grown-refl pid old.mfs.mf w.sound.nodup }) in
      (
        (λ j.
            lookup-remove (register_loop c sv pid reqs old).peers pid j
            ∙ ground (arith, a.peers j)),
        (λ h. remove_source-Grown pid old.mfs.mf (register_loop c sv pid reqs old).mfs h a.mfs),
      )
