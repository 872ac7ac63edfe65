-- ===== src/Node/Serve.antt =====
-- mcnode/proto.go: dataHandler, which serves objects to a peer, and ping. The stream of a peer
-- accepts a number of messages and then fails.
pub mod Complete
use concat.Base.{
  ltb, if◌then◌else◌, ℕ, zero, suc, Text, text_eq, Option, none, some, List, [], ◌∷◌, ◌++◌, Error,
  Result, ok, err, panic, Bool, true, false,
}
use concat.Node.Merge.{Message, data_object, end, error, max_message_size}

-- The writer of a stream: what was sent, and how many messages will still be accepted.
pub record Writer (Sent : Type 0) : Type 0 where
  pub sent : List Sent
  pub room : ℕ

-- `w.WriteMsg(&res)`; `none` is an error.
abbrev pub write_room : {Sent : Type 0} → List Sent → ℕ → Sent → Option (Writer Sent)
write_room sent zero m = none
write_room sent (suc n) m = some (record { sent = sent ++ (m ∷ []); room = n })

abbrev pub write_msg : {Sent : Type 0} → Writer Sent → Sent → Option (Writer Sent)
write_msg w m = write_room w.sent w.room m

-- The writer after a message whose failure is not looked at.
abbrev pub after : {Sent : Type 0} → Writer Sent → Option (Writer Sent) → Writer Sent
after w none = w
after w (some w') = w'

-- multihash.FromB58String, the datastore's Get, the text of an error, and the length of a request in
-- its encoding. Get gives no object for a missing key.
pub record Peer : Type 0 where
  pub from_b58 : Text → Result Text
  pub get : Text → Result (Option Text)
  pub message : Error → Text
  pub request_size : List Text → ℕ

-- Whether the handler goes on, with its writer; `panicked` is a run-time panic of the handler.
pub data Served : Type 0 where
  goes_on stops panicked : Writer Message → Served

module _ (peer : Peer) where
  -- writeError, and the return
  abbrev pub write_error : Error → Writer Message → Served
  write_error e w = stops (after w (write_msg w (error (peer.message e))))

  -- The loop over the keys of a request.
  unfoldable pub serve_keys : List Text → Writer Message → Served
  serve_keys [] w = goes_on w
  serve_keys (key58 ∷ keys) w = elim (peer.from_b58 key58) [
    | panic ↦ panicked w
    | err e ↦ write_error e w
    | ok key ↦ elim (peer.get key) [
      | panic ↦ panicked w
      | err e ↦ write_error e w
      | ok none ↦ serve_keys keys w
      | ok (some object) ↦ elim (write_msg w (data_object key58 object)) [
        | none ↦ stops w
        | some w' ↦ serve_keys keys w'
      ]
    ]
  ]

  -- writeEnd
  abbrev pub write_end : Served → Served
  write_end (goes_on w) = elim (write_msg w end) [ none ↦ stops w | some w' ↦ goes_on w' ]
  write_end (stops w) = stops w
  write_end (panicked w) = panicked w

  -- The requests that the delimited reader gives: it fails at one that is larger than MaxMessageSize.
  unfoldable pub read_requests : List (List Text) → List (List Text)
  read_requests [] = []
  read_requests (keys ∷ reqs) =
      if ltb max_message_size (peer.request_size keys) then [] else keys ∷ read_requests reqs

  -- The loop of dataHandler over the requests, after which the read fails.
  unfoldable pub serve_requests : List (List Text) → Served → Served
  unfolding serve_keys
  serve_requests reqs (stops w) = stops w
  serve_requests reqs (panicked w) = panicked w
  serve_requests [] (goes_on w) = stops w
  serve_requests (keys ∷ reqs) (goes_on w) = serve_requests reqs (write_end (serve_keys keys w))

  abbrev pub writer_of : Served → Writer Message
  writer_of (goes_on w) = w
  writer_of (stops w) = w
  writer_of (panicked w) = w

  unfoldable pub data_handler : List (List Text) → ℕ → List Message
  unfolding serve_requests read_requests
  data_handler reqs room =
      let start = goes_on (record { sent = []; room = room }) in
      (writer_of (serve_requests (read_requests reqs) start)).sent
