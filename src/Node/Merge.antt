-- ===== src/Node/Merge.antt =====
-- mcnode/proto.go: doMergeDataImpl, which fetches the objects that merged statements refer to.
pub mod Stored
use concat.Base.{
  ◌*◌, ◌^◌, ℕ, suc, Text, text_eq, codes, ◌==◌, Bool, true, false, Option, none, some, List, [],
  ◌∷◌, Error, Result, ok, err, panic, bad_data, bad_result, unexpected_data, missing_data,
  stream_error, foreign, ◌>>=◌, length, ltb, if◌then◌else◌,
}
use concat.Base.Dict.{Dict, lookup, remove}

-- What ReadMsg delivers: the oneof of pb.DataResult, or an error.
pub data Message : Type 0 where
  data_object : Text → Text → Message
  end : Message
  error : Text → Message
  unset : Message
  unreadable : Error → Message

-- MaxMessageSize of mc/message.go
abbrev pub max_message_size : ℕ
max_message_size = 2 * 2 ^ 20

-- The datastore's calls, the hash of an object, the write of a request, and the length of a message
-- in its encoding.
pub record Services (Store : Type 0) : Type 0 where
  pub has : Text → Store → Result Bool
  pub put : Text → Store → Result Store
  pub hash : Text → Text
  pub write : List Text → Option Error
  pub size : Message → ℕ

-- The results `count` and `err`, with the datastore.
pub record Merged (Store : Type 0) : Type 0 where
  pub count : ℕ
  pub store : Store
  pub failure : Option Error

module _ {Store : Type 0} (sv : Services Store) where
  -- The messages as the delimited reader gives them: ReadMsg fails for one that is larger than
  -- MaxMessageSize, and nothing is read behind it.
  unfoldable pub read_msgs : List Message → List Message
  read_msgs [] = []
  read_msgs (m ∷ rest) =
      if ltb max_message_size (sv.size m)
      then unreadable (foreign (codes "short buffer")) ∷ []
      else m ∷ read_msgs rest

  -- The loop over the keys: those that the datastore does not have.
  unfoldable pub wanted : Dict Text Text → Store → Result (List Text)
  wanted [] store = ok []
  wanted ((key58, key) ∷ keys) store = do
    have ← sv.has key store
    keys58 ← wanted keys store
    ok (if have then keys58 else key58 ∷ keys58)

  -- An object whose key is looked up: checked and stored, and its key deleted.
  unfoldable pub receive :
      Option Text → Text → Text → Dict Text Text → Store → Result (Dict Text Text × Store)
  receive none key58 object keys store = err unexpected_data
  receive (some key) key58 object keys store =
      if key == sv.hash object
      then (sv.put object store >>= λ store'. ok (remove keys key58, store'))
      else err bad_data

  abbrev pub stop : ℕ → Store → Error → Result (Merged Store)
  stop count store e = ok (record { count = count; store = store; failure = some e })

  -- The loop over the messages; past the last one the stream is at its end.
  unfoldable pub receive_loop : List Message → Dict Text Text → ℕ → Store → Result (Merged Store)
  receive_loop [] keys count store = stop count store (foreign (codes "EOF"))
  receive_loop (data_object key58 object ∷ rest) keys count store =
      elim (receive (lookup keys key58) key58 object keys store) [
        | panic ↦ panic
        | err e ↦ stop count store e
        | ok (keys', store') ↦ receive_loop rest keys' (suc count) store'
      ]
  receive_loop (end ∷ rest) keys count store =
      ok (record { count = count; store = store; failure = none })
  receive_loop (error e ∷ rest) keys count store = stop count store (stream_error e)
  receive_loop (unset ∷ rest) keys count store = stop count store bad_result
  receive_loop (unreadable e ∷ rest) keys count store = stop count store e

  -- `if count < len(keys58) { return count, MissingData }`
  unfoldable pub check_count : ℕ → Merged Store → Merged Store
  check_count asked m = elim m.failure [
    | none ↦ if ltb m.count asked then record m { failure = some missing_data } else m
    | some e ↦ m
  ]

  -- What follows the request.
  unfoldable pub read_results :
      Option Error → List Text → List Message → Dict Text Text → Store → Result (Merged Store)
  unfolding receive_loop check_count
  read_results (some e) keys58 messages keys store = stop 0 store e
  read_results none keys58 messages keys store = do
    m ← receive_loop messages keys 0 store
    ok (check_count (length keys58) m)

  -- The keys that are asked for, none, some, or an error.
  unfoldable pub request_objects :
      Result (List Text) → List Message → Dict Text Text → Store → Result (Merged Store)
  unfolding read_results
  request_objects panic messages keys store = panic
  request_objects (err e) messages keys store = stop 0 store e
  request_objects (ok []) messages keys store =
      ok (record { count = 0; store = store; failure = none })
  request_objects (ok (key58 ∷ keys58)) messages keys store =
      read_results (sv.write (key58 ∷ keys58)) (key58 ∷ keys58) messages keys store

  unfoldable pub merge_data : List Message → Dict Text Text → Store → Result (Merged Store)
  unfolding request_objects wanted read_msgs
  merge_data messages keys store =
      request_objects (wanted keys store) (read_msgs messages) keys store
