-- ===== src/Directory/Serve/Lookup.antt =====
-- What a node that asks a directory for a peer is told.
use concat.Base.{
  ◌≡◌, refl, ap, ◌∙◌, Text, text_eq, ◌==◌, Bool, true, false, Option, none, some, List, [], ◌∷◌,
  Result, ok, err, unknown_peer, end_of_file, if◌then◌else◌,
}
use concat.Base.Dict.{lookup, put, remove, lookup-put, lookup-remove}
use concat.Mc.Message.{PeerInfo, Codec, IsLawful}
use concat.Mc.Message.Laws.{pb_to_peer_info-pb_from_peer_info}
use concat.Directory.Types.{PeerRecord, Peers}
use concat.Directory.Peers.{register_peer, unregister_peer, lookup_peer}
use concat.Directory.Serve.{encoded, lookup_answer, lookup_handler, lookup_response, dir_lookup}

-- The first message that a handler sends, or the end of its stream.
abbrev pub first_message {ℓ} : {A : Type ℓ} → List A → Result A
first_message [] = err end_of_file
first_message (a ∷ rest) = ok a

module _ (c : Codec) (law : IsLawful c) where
  -- A lookup of a peer at a directory that can be reached and has the peers of the moment.
  unfoldable pub ask : Peers → Text → Result PeerInfo
  ask peers pid =
      dir_lookup c (ok tt) (ok tt) (first_message (lookup_handler c 1 ((c.pretty pid, peers) ∷ [])))

  abbrev pub answer_of : Option PeerRecord → Result PeerInfo
  answer_of none = err unknown_peer
  answer_of (some rec) = ok rec.peer

  ask-answer_of : (peers : Peers) (pid : Text) → ask peers pid ≡ answer_of (lookup peers pid)
  unfolding ask dir_lookup lookup_handler lookup_peer
  ask-answer_of peers pid =
      ap (λ o. lookup_response c (first_message (elim o [ none ↦ [] | some res ↦ res ∷ [] ])))
        (answered pid peers)
      ∙ told (lookup peers pid)
    where
      answered :
          (pid : Text) (peers : Peers)
          → lookup_answer c (c.pretty pid, peers) ≡ some (encoded c (lookup_peer pid peers))
      answered pid peers = rw (lookup_answer, law.decode_id-pretty pid) refl

      told :
          (o : Option PeerRecord)
          → lookup_response c (ok (encoded c (elim o [ none ↦ none | some rec ↦ some rec.peer ])))
            ≡ answer_of o
      told none = refl
      told (some rec) = pb_to_peer_info-pb_from_peer_info c law rec.peer

  -- A node that asks a directory for a peer gets what the peer last registered with, whatever other
  -- peers registered or left, and the error for an unknown peer once it has left: after a
  -- registration the answer for that peer is its description and for another peer the answer from
  -- before, and after a peer has left the answer for it is the error, and for another peer the answer
  -- from before. Identities and addresses are read back from their texts.
  pub ask-register_peer :
      (peers : Peers) (rec : PeerRecord) (gone pid : Text)
      → (ask (register_peer rec peers) pid
          ≡ (if pid == rec.peer.id then ok rec.peer else ask peers pid))
        × (ask (unregister_peer gone peers) pid
            ≡ (if pid == gone then err unknown_peer else ask peers pid))
  unfolding register_peer unregister_peer
  ask-register_peer peers rec gone pid =
      rw
        (
          ask-answer_of (put peers rec.peer.id rec) pid,
          ask-answer_of (remove peers gone) pid,
          ask-answer_of peers pid,
          lookup-put peers rec.peer.id rec pid,
          lookup-remove peers gone pid,
        )
        (branch (pid == rec.peer.id) (some rec), branch (pid == gone) none)
    where
      branch :
          (b : Bool) (o : Option PeerRecord)
          → answer_of (if b then o else lookup peers pid)
            ≡ (if b then answer_of o else answer_of (lookup peers pid))
      branch true o = refl
      branch false o = refl
