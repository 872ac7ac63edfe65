-- ===== src/Directory/Handler.antt =====
-- mcdir/proto.go: the handler of registrations, and the directory under any mix of handlers.
pub mod Invariant
pub mod Session
use concat.Base.{
  Text, text_eq, ◌==◌, Bool, true, false, Option, none, some, List, [], ◌∷◌, Result, ok, err, panic,
  if◌then◌else◌,
}
use concat.Mc.Message.{PeerInfo, PbPeerInfo, Codec, pb_to_peer_info}
use concat.Directory.Types.{PublisherInfo, PeerRecord, Peers, Manifest}
use concat.Directory.Peers.{register_peer, unregister_peer}
use concat.Directory.Manifests.{ManifestStore, Services, new_manifest_store, put_all, remove_source}

-- pb.RegisterPeer
pub record RegisterPeer : Type 0 where
  pub info : Option PbPeerInfo
  pub publisher : Option PublisherInfo
  pub manifest : List Manifest

-- The fields `peers` and `mfs` of Directory.
pub record Directory : Type 0 where
  pub peers : Peers
  pub mfs : ManifestStore

abbrev pub new_directory : Directory
new_directory = record { peers = []; mfs = new_manifest_store }

module _ (c : Codec) (sv : Services) where
  -- `if len(req.Manifest) > 0 { dir.mfs.Put(pid, req.Manifest) }`
  unfoldable pub put_manifests : Text → List Manifest → ManifestStore → ManifestStore
  put_manifests pid [] mfs = mfs
  put_manifests pid (mf ∷ lst) mfs = put_all sv pid (mf ∷ lst) mfs

  unfoldable pub register_decoded :
      Text → RegisterPeer → Result PeerInfo → Directory → Option Directory
  unfolding put_manifests
  register_decoded pid req (ok pinfo) dir =
      if pinfo.id == pid
      then some (record {
        peers = register_peer (record { peer = pinfo; publisher = req.publisher }) dir.peers;
        mfs = put_manifests pid req.manifest dir.mfs;
      })
      else none
  register_decoded pid req (err e) dir = none
  register_decoded pid req panic dir = none

  unfoldable pub register_info :
      Text → RegisterPeer → Option PbPeerInfo → Directory → Option Directory
  unfolding register_decoded
  register_info pid req none dir = none
  register_info pid req (some info) dir = register_decoded pid req (pb_to_peer_info c info) dir

  -- One round of the loop of registerHandler, for a request of the remote peer `pid`; `none` is a
  -- break, which leaves the directory as it is.
  unfoldable pub register_request : Text → RegisterPeer → Directory → Option Directory
  unfolding register_info
  register_request pid req dir = register_info pid req req.info dir

  unfoldable pub continue_with : Option Directory → Directory → Directory
  continue_with none dir = dir
  continue_with (some dir') dir = dir'

  -- The loop of registerHandler over the requests that can be read; a break ends it.
  unfoldable pub register_loop : Text → List RegisterPeer → Directory → Directory
  register_loop pid [] dir = dir
  register_loop pid (req ∷ reqs) dir = elim (register_request pid req dir) [
    | none ↦ dir
    | some dir' ↦ register_loop pid reqs dir'
  ]

  -- What registerHandler does behind its loop.
  unfoldable pub leave : Text → Directory → Directory
  leave pid dir = record { peers = unregister_peer pid dir.peers; mfs = remove_source pid dir.mfs }

  unfoldable pub register_handler : Text → List RegisterPeer → Directory → Directory
  unfolding register_loop leave
  register_handler pid reqs dir = leave pid (register_loop pid reqs dir)

  -- Handlers of several streams run at once: a request that one of them reads, or its end.
  pub data Event : Type 0 where
    request : Text → RegisterPeer → Event
    closed : Text → Event

  unfoldable pub handle_event : Event → Directory → Directory
  unfolding register_request continue_with leave
  handle_event (request pid req) dir = continue_with (register_request pid req dir) dir
  handle_event (closed pid) dir = leave pid dir

  unfoldable pub handle_events : List Event → Directory → Directory
  unfolding handle_event
  handle_events [] dir = dir
  handle_events (event ∷ events) dir = handle_events events (handle_event event dir)
