-- ===== src/Directory/Handler/Invariant.antt =====
-- What holds of a directory after any events of any peers.
use concat.Base.{
  ◌≡◌, sym, Text, text_eq, text_dec, ◌==◌, Option, none, some, List, [], ◌∷◌, Result, ok, err,
  panic, arith, Bool-cases, inl, inr,
}
use concat.Base.Dict.{lookup, lookup-put, lookup-remove, NodupKeys, put-NodupKeys, remove-NodupKeys}
use concat.Mc.Message.{PeerInfo, PbPeerInfo, Codec, pb_to_peer_info}
use concat.Directory.Types.{PeerRecord, Peers, Manifest}
use concat.Directory.Peers.{register_peer, unregister_peer}
use concat.Directory.Manifests.{ManifestStore, Services}
use concat.Directory.Manifests.Verified.{IsSound, put_all-IsSound, remove_source-IsSound}
use concat.Directory.Handler.{
  RegisterPeer, Directory, put_manifests, register_decoded, register_info, continue_with, leave,
  Event, request, closed, handle_event, handle_events,
}

-- Every peer stands under its own identity.
pub record IsHonest (peers : Peers) : Type 0 where
  pub own : (pid : Text) (rec : PeerRecord) → lookup peers pid ≡ some rec → rec.peer.id ≡ pid
  pub nodup : NodupKeys peers

register_peer-IsHonest :
    (rec : PeerRecord) (peers : Peers) → IsHonest peers → IsHonest (register_peer rec peers)
unfolding register_peer
register_peer-IsHonest rec peers h = record {
  own = λ pid r e. elim (text_dec pid rec.peer.id) [
    | yes same ↦
        let is : rec ≡ r = ground (arith, lookup-put peers rec.peer.id rec pid) in
        rw (← is) (sym same)
    | no differs ↦ h.own pid r (ground (arith, lookup-put peers rec.peer.id rec pid))
  ];
  nodup = put-NodupKeys peers rec.peer.id rec h.nodup;
}

unregister_peer-IsHonest :
    (pid : Text) (peers : Peers) → IsHonest peers → IsHonest (unregister_peer pid peers)
unfolding unregister_peer
unregister_peer-IsHonest pid peers h = record {
  own = λ j r e. h.own j r (ground (arith, lookup-remove peers pid j));
  nodup = remove-NodupKeys peers pid h.nodup;
}

module _ (c : Codec) (sv : Services) where
  pub record IsWell (dir : Directory) : Type 0 where
    pub honest : IsHonest dir.peers
    pub sound : IsSound sv dir.mfs

  put_manifests-IsSound :
      (pid : Text) (lst : List Manifest) (mfs : ManifestStore)
      → IsSound sv mfs
      → IsSound sv (put_manifests c sv pid lst mfs)
  unfolding put_manifests
  put_manifests-IsSound pid [] mfs s = s
  put_manifests-IsSound pid (mf ∷ lst) mfs s = put_all-IsSound sv pid (mf ∷ lst) mfs s

  continue-IsWell :
      (pid : Text) (req : RegisterPeer) (r : Result PeerInfo) (dir : Directory)
      → IsWell dir
      → IsWell (continue_with c sv (register_decoded c sv pid req r dir) dir)
  unfolding register_decoded continue_with
  continue-IsWell pid req (ok pinfo) dir w = elim (Bool-cases (pinfo.id == pid)) [
    | inl own ↦ rw own (record {
      honest = register_peer-IsHonest _ dir.peers w.honest;
      sound = put_manifests-IsSound pid req.manifest dir.mfs w.sound;
    })
    | inr other ↦ rw other w
  ]
  continue-IsWell pid req (err e) dir w = w
  continue-IsWell pid req panic dir w = w

  pub leave-IsWell : (pid : Text) (dir : Directory) → IsWell dir → IsWell (leave c sv pid dir)
  unfolding leave
  leave-IsWell pid dir w = record {
    honest = unregister_peer-IsHonest pid dir.peers w.honest;
    sound = remove_source-IsSound sv pid dir.mfs w.sound;
  }

  register_info-IsWell :
      (pid : Text) (req : RegisterPeer) (info : Option PbPeerInfo) (dir : Directory)
      → IsWell dir
      → IsWell (continue_with c sv (register_info c sv pid req info dir) dir)
  unfolding register_info continue_with
  register_info-IsWell pid req none dir w = w
  register_info-IsWell pid req (some info) dir w =
      continue-IsWell pid req (pb_to_peer_info c info) dir w

  handle_event-IsWell :
      (event : Event c sv) (dir : Directory) → IsWell dir → IsWell (handle_event c sv event dir)
  unfolding handle_event
  handle_event-IsWell (request pid req) dir w = register_info-IsWell pid req req.info dir w
  handle_event-IsWell (closed pid) dir w = leave-IsWell pid dir w

  -- Where a directory is so before, it is so after any events of any peers, in any order: every peer
  -- it lists is listed once, under the identity of its own record, and every manifest it keeps stands
  -- under its hash, with a signature that some key verifies which the lookup gave for an entity
  -- and a key id that, joined by a colon, read like those of the manifest.
  pub handle_events-IsWell :
      (events : List (Event c sv)) (dir : Directory)
      → IsWell dir
      → IsWell (handle_events c sv events dir)
  unfolding handle_events
  handle_events-IsWell [] dir w = w
  handle_events-IsWell (event ∷ events) dir w =
      handle_events-IsWell events (handle_event c sv event dir) (handle_event-IsWell event dir w)
