-- ===== src/Node/Serve/Complete.antt =====
-- A merge of data from a peer that has the objects.
use concat.Base.{
  append_assoc, append-nil, ℕ, zero, suc, ◌+◌, ◌<◌, ◌≤◌, ◌≡◌, refl, sym, ap, ◌∙◌, arith, Text,
  text_eq, ◌==◌, Bool, true, false, ◌||◌, none, some, List, [], ◌∷◌, ◌++◌, Result, ok, err, panic,
  >>=-eq-ok, contains, Nodup, All, length, if◌then◌else◌, ltb, Bool-cases, inl, inr,
}
use concat.Base.Dict.{Dict, lookup, remove, lookup-remove, NodupKeys, Entries, lookup-Entries, keys}
use concat.Node.Merge.{
  Message, data_object, end, Services, Merged, wanted, receive, receive_loop, check_count,
  read_results, request_objects, merge_data, read_msgs, max_message_size,
}
use concat.Node.Serve.{
  Peer, goes_on, serve_keys, write_end, serve_requests, writer_of, data_handler, read_requests,
}

module _ {Store : Type 0} (sv : Services Store) (peer : Peer) (object : Text → Text) where
  -- The peer has an object for a key, its hash is the key, and a message with the object is not too
  -- large to be read.
  abbrev pub Available : Text → Text → Type 0
  Available key58 key =
      (peer.from_b58 key58 ≡ ok key)
      × (peer.get key ≡ ok (some (object key58)))
      × (key ≡ sv.hash (object key58))
      × (sv.size (data_object key58 (object key58)) ≤ max_message_size)

  abbrev Wanted : Dict Text Text → Text → Type 0
  Wanted m key58 = (key : Text) × (lookup m key58 ≡ some key) × Available key58 key

  -- What the peer sends for some keys.
  abbrev objects : List Text → List Message
  objects [] = []
  objects (key58 ∷ keys58) = data_object key58 (object key58) ∷ objects keys58

  -- Room for some keys, and more.
  abbrev room_for : List Text → ℕ → ℕ
  room_for [] more = more
  room_for (key58 ∷ keys58) more = suc (room_for keys58 more)

  room_for_lem :
      (keys58 : List Text) (room : ℕ)
      → length keys58 < room
      → (more : ℕ) × (room ≡ room_for keys58 (suc more))
  room_for_lem [] zero lt = absurd (omega (arith, lt))
  room_for_lem [] (suc room) lt = (room, refl)
  room_for_lem (k ∷ ks) zero lt = absurd (omega (arith, lt))
  room_for_lem (k ∷ ks) (suc room) lt =
      let (more, e) = room_for_lem ks room (omega (arith, lt)) in (more, ap suc e)

  serve_keys-objects :
      (m : Dict Text Text) (keys58 : List Text) (sent : List Message) (room : ℕ)
      → All (Wanted m) keys58
      → serve_keys peer keys58 (record { sent = sent; room = room_for keys58 room })
        ≡ goes_on (record { sent = sent ++ objects keys58; room = room })
  unfolding serve_keys
  serve_keys-objects m [] sent room a =
      ap (λ s. goes_on (record { sent = s; room = room })) (sym (append-nil sent))
  serve_keys-objects m (key58 ∷ keys58) sent room ((key, _, (dec, found, _, _)), a) =
      rw (serve_keys, dec, found)
        (serve_keys-objects m keys58 (sent ++ (data_object key58 (object key58) ∷ [])) room a
          ∙ ap (λ s. goes_on (record { sent = s; room = room }))
              (append_assoc sent (data_object key58 (object key58) ∷ []) (objects keys58)))

  data_handler-objects :
      (m : Dict Text Text) (keys58 : List Text) (more : ℕ)
      → All (Wanted m) keys58
      → peer.request_size keys58 ≤ max_message_size
      → data_handler peer (keys58 ∷ []) (room_for keys58 (suc more)) ≡ objects keys58 ++ (end ∷ [])
  unfolding data_handler serve_requests read_requests
  data_handler-objects m keys58 more a small =
      let fits : ltb max_message_size (peer.request_size keys58) ≡ false = ground (arith, small) in
      let whole : read_requests peer (keys58 ∷ []) ≡ keys58 ∷ [] = rw (read_requests, fits) refl in
      rw (data_handler, whole)
        (ap (λ s. (writer_of peer (serve_requests peer [] (write_end peer s))).sent)
          (serve_keys-objects m keys58 [] (suc more) a))

  -- The messages with the objects are read as they are sent.
  read_msgs-objects :
      (m : Dict Text Text) (keys58 : List Text)
      → All (Wanted m) keys58
      → sv.size end ≤ max_message_size
      → read_msgs sv (objects keys58 ++ (end ∷ [])) ≡ objects keys58 ++ (end ∷ [])
  unfolding read_msgs
  read_msgs-objects m [] a small =
      let fits : ltb max_message_size (sv.size end) ≡ false = ground (arith, small) in rw fits refl
  read_msgs-objects m (k ∷ ks) ((key, found, (_, _, _, size)), a) small =
      let fits : ltb max_message_size (sv.size (data_object k (object k))) ≡ false =
        ground (arith, size) in
      rw fits (ap (λ r. data_object k (object k) ∷ r) (read_msgs-objects m ks a small))

  -- Keys that are wanted stay wanted when another is removed.
  remove-Wanted :
      (m : Dict Text Text) (gone : Text) (keys58 : List Text)
      → All (Wanted m) keys58
      → contains keys58 gone ≡ false
      → All (Wanted (remove m gone)) keys58
  remove-Wanted m gone [] a c = tt
  remove-Wanted m gone (k ∷ ks) ((key, found, av), a) c =
      ((key, ground (arith, lookup-remove m gone k), av), remove-Wanted m gone ks a (ground arith))

  -- Every put succeeds.
  abbrev pub Puttable : Type 0
  Puttable = (o : Text) (s : Store) → (s' : Store) × (sv.put o s ≡ ok s')

  receive_loop-objects :
      (keys58 : List Text) (m : Dict Text Text) (count : ℕ) (store : Store)
      → Puttable
      → All (Wanted m) keys58
      → Nodup keys58
      → (final : Store) × (receive_loop sv (objects keys58 ++ (end ∷ [])) m count store
          ≡ ok (record { count = count + length keys58; store = final; failure = none }))
  unfolding receive_loop receive
  receive_loop-objects [] m count store p a u =
      (store, ap (λ n. ok (record { count = n; store = store; failure = none })) (omega arith))
  receive_loop-objects (k ∷ ks) m count store p ((key, found, (_, _, hash, _)), a) (fresh, u) =
      let (store', put) = p (object k) store in
      let (final, e) =
        receive_loop-objects ks (remove m k) (suc count) store' p (remove-Wanted m k ks a fresh)
          u in
      let got : receive sv (lookup m k) k (object k) m store ≡ ok (remove m k, store') =
        rw found (ground (arith, hash, put)) in
      (
        final,
        rw (receive_loop, got)
            (e ∙ ap (λ n. ok (record { count = n; store = final; failure = none })) (omega arith)),
      )

  fewer :
      (m : Dict Text Text) (store : Store) (ks : List Text)
      → wanted sv m store ≡ ok ks
      → length ks ≤ length (keys m)
  unfolding wanted
  fewer [] store ks e = let is : [] ≡ ks = ground arith in rw (← is) (omega arith)
  fewer ((k, key) ∷ m) store ks e =
      let (b, _, e1) = >>=-eq-ok (sv.has key store) _ e in
      let (rest, e2, e3) = >>=-eq-ok (wanted sv m store) _ e1 in
      let is : (if b then rest else k ∷ rest) ≡ ks = ground arith in
      let less = fewer m store rest e2 in rw (← is) (asked b rest less)
    where
      asked :
          (b : Bool) (rest : List Text)
          → length rest ≤ length (keys m)
          → length (if b then rest else k ∷ rest) ≤ suc (length (keys m))
      asked true rest less = omega (arith, less)
      asked false rest less = omega (arith, less)

  Entries-trivial : (m : Dict Text Text) → Entries (λ a c. Unit {0}) m
  Entries-trivial [] = tt
  Entries-trivial ((k, v) ∷ m) = (tt, Entries-trivial m)

  -- The datastore answers for every key.
  abbrev pub Answering : Type 0
  Answering = (k : Text) (s : Store) → (b : Bool) × (sv.has k s ≡ ok b)

  -- The keys to ask for are keys of the merge, each once.
  wanted-Wanted :
      (m : Dict Text Text) (store : Store)
      → Answering
      → (keys58 : List Text) × (wanted sv m store ≡ ok keys58)
        × ((j : Text) → contains keys58 j ≡ true → contains (keys m) j ≡ true)
        × (NodupKeys m → Nodup keys58)
  unfolding wanted
  wanted-Wanted [] store answers = ([], refl, λ j c. c, λ u. tt)
  wanted-Wanted ((k, key) ∷ m) store answers =
      let (b, e) = answers key store in
      let (ks, done, among, once) = wanted-Wanted m store answers in
      ((if b then ks else k ∷ ks), rw (e, done) refl, more b ks among, distinct b ks among once)
    where
      more :
          (b : Bool) (ks : List Text)
          → ((j : Text) → contains ks j ≡ true → contains (keys m) j ≡ true)
          → (j : Text) → contains (if b then ks else k ∷ ks) j ≡ true
          → (j == k || contains (keys m) j) ≡ true
      more true ks among j c = ground (arith, among j c)
      more false ks among j c = ground (arith, among j)

      distinct :
          (b : Bool) (ks : List Text)
          → ((j : Text) → contains ks j ≡ true → contains (keys m) j ≡ true)
          → (NodupKeys m → Nodup ks)
          → (lookup m k ≡ none) × NodupKeys m
          → Nodup (if b then ks else k ∷ ks)
      distinct true ks among once (fresh, u) = once u
      distinct false ks among once (fresh, u) = elim (Bool-cases (contains ks k)) [
        | inl there ↦
            let (v, found, _) =
              lookup-Entries (λ a c. Unit) m k (Entries-trivial m) (among k there) in
            absurd (ground (arith, found, fresh))
        | inr absent ↦ (absent, once u)
      ]

  All-Wanted :
      (m : Dict Text Text) (ks : List Text)
      → Entries Available m
      → ((j : Text) → contains ks j ≡ true → contains (keys m) j ≡ true)
      → All (Wanted m) ks
  All-Wanted m [] h among = tt
  All-Wanted m (k ∷ ks) h among = (
    lookup-Entries Available m k h (among k (ground arith)),
    All-Wanted m ks h (λ j c. among j (ground arith)),
  )

  -- What the peer sends for the keys that the datastore lacks.
  abbrev pub answered : Result (List Text) → ℕ → List Message
  answered (ok keys58) room = data_handler peer (keys58 ∷ []) room
  answered (err e) room = []
  answered panic room = []

  read :
      (k : Text) (ks : List Text) (m : Dict Text Text) (store : Store) (messages : List Message)
      (final : Store)
      → receive_loop sv messages m 0 store
        ≡ ok (record { count = 0 + length (k ∷ ks); store = final; failure = none })
      → read_results sv none (k ∷ ks) messages m store
        ≡ ok (record { count = length (k ∷ ks); store = final; failure = none })
  unfolding read_results check_count
  read k ks m store messages final e = rw e (whole (0 + length (k ∷ ks)) (omega arith))
    where
      whole :
          (n : ℕ)
          → n ≡ length (k ∷ ks)
          → ok (
              check_count sv
                (length (k ∷ ks))
                (record { count = n; store = final; failure = none }))
            ≡ ok (record { count = length (k ∷ ks); store = final; failure = none })
      whole n same =
          let test : ltb n (suc (length ks)) ≡ false = ground arith in
          rw test (ap (λ c. ok (record { count = c; store = final; failure = none })) same)

  request_objects-done :
      (m : Dict Text Text) (store : Store) (ks : List Text) (room : ℕ)
      → Puttable
      → sv.write ks ≡ none
      → All (Wanted m) ks
      → Nodup ks
      → length ks < room
      → peer.request_size ks ≤ max_message_size
      → sv.size end ≤ max_message_size
      → (d : Merged Store) × (request_objects sv
            (ok ks)
            (read_msgs sv (data_handler peer (ks ∷ []) room))
            m
            store
          ≡ ok d)
        × (d.failure ≡ none)
        × (d.count ≡ length ks)
  unfolding request_objects read_results check_count
  request_objects-done m store [] room p w a u lt small small_end =
      (record { count = 0; store = store; failure = none }, refl, refl, refl)
  request_objects-done m store (k ∷ ks) room p w a u lt small small_end =
      let (more, is) = room_for_lem (k ∷ ks) room lt in
      let (final, e) = receive_loop-objects (k ∷ ks) m 0 store p a u in
      let sent = data_handler-objects m (k ∷ ks) more a small in
      let messages = ap (read_msgs sv) sent ∙ read_msgs-objects m (k ∷ ks) a small_end in
      (
        record { count = length (k ∷ ks); store = final; failure = none },
        rw (w, is) (rw messages (read k ks m store (objects (k ∷ ks) ++ (end ∷ [])) final e)),
        refl,
        refl,
      )

  -- A merge of data from a peer that has the objects succeeds: it asks for the keys that its datastore
  -- lacks and receives as many objects as it asked for, without an error. The keys are distinct, for
  -- each of them the peer has an object with that hash, the datastore answers for every key and
  -- accepts every object, the request is sent, and the stream has room for the objects and the end. No
  -- message is larger than MaxMessageSize: neither the request, nor one with an object, nor the end.
  pub merge_data-completes :
      (m : Dict Text Text) (store : Store) (room : ℕ)
      → NodupKeys m
      → Entries Available m
      → Answering
      → Puttable
      → ((ks : List Text) → sv.write ks ≡ none)
      → length (keys m) < room
      → ((ks : List Text) → wanted sv m store ≡ ok ks → peer.request_size ks ≤ max_message_size)
      → sv.size end ≤ max_message_size
      → (d : Merged Store) × (merge_data sv (answered (wanted sv m store) room) m store ≡ ok d)
        × (d.failure ≡ none)
        × ((ks : List Text) × (wanted sv m store ≡ ok ks) × (d.count ≡ length ks))
  unfolding merge_data
  merge_data-completes m store room u h answers p w lt small small_end =
      let (ks, done, among, once) = wanted-Wanted m store answers in
      let (d, e, fine, count) =
        request_objects-done m store ks room p (w ks) (All-Wanted m ks h among) (once u)
          (omega (arith, lt, fewer m store ks done)) (small ks done) small_end in
      (d, rw done e, fine, (ks, done, count))
