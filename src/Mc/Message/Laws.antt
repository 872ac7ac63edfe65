-- ===== src/Mc/Message/Laws.antt =====
-- Round trips of peer descriptions and of query results.
use mathlib.Core.List.{append_assoc, append-nil}
use concat.Base.{
  ◌≡◌, refl, ◌∙◌, Text, text_eq, List, [], ◌∷◌, ◌++◌, map, ok, ◌>>=◌, >>=-eq-ok, >>=_assoc,
  >>=_cong, arith, none,
}
use concat.Base.Dict.{Dict, lookup, NodupKeys, NodupKeys-append, put_new}
use concat.Query.Selector.{Scalar, int, int64, string, stmt_ptr, body_ptr}
use concat.Query.ResultSet.{Value, scalar, object}
use concat.Mc.Message.{
  PeerInfo, Codec, IsLawful, pb_from_peer_info, decode_addrs, pb_to_peer_info, simple_value,
  compound_value, simple_value_of, fields_of, value_of, result_value,
}

module _ (c : Codec) (law : IsLawful c) where
  decode_addrs-map : (addrs : List Text) → decode_addrs c (map c.addr_bytes addrs) ≡ ok addrs
  unfolding decode_addrs
  decode_addrs-map [] = refl
  decode_addrs-map (a ∷ addrs) = rw (law.decode_addr-addr_bytes a, decode_addrs-map addrs)

  -- A peer description that is written to a message and read back is the same, address for address.
  pub pb_to_peer_info-pb_from_peer_info :
      (p : PeerInfo) → pb_to_peer_info c (pb_from_peer_info c p) ≡ ok p
  unfolding pb_to_peer_info pb_from_peer_info
  pb_to_peer_info-pb_from_peer_info p = rw (law.decode_id-pretty p.id, decode_addrs-map p.addrs)

-- What the reader of a query result sees: an `int` comes back as an `int64`.
abbrev pub widen : Scalar → Scalar
widen (int n) = int64 n
widen (int64 n) = int64 n
widen (string s) = string s
widen (stmt_ptr p) = stmt_ptr p
widen (body_ptr p) = body_ptr p

pub widen_fields : Dict Text Scalar → Dict Text Scalar
widen_fields [] = []
widen_fields ((k, v) ∷ d) = (k, widen v) ∷ widen_fields d

-- Objects are Go maps: no field stands twice.
abbrev pub IsValue : Value → Type 0
IsValue (scalar v) = Unit
IsValue (object d) = NodupKeys d

abbrev pub widen_value : Value → Value
widen_value (scalar v) = scalar (widen v)
widen_value (object d) = object (widen_fields d)

lookup-widen_fields :
    (d : Dict Text Scalar) (k : Text) → lookup d k ≡ none → lookup (widen_fields d) k ≡ none
unfolding lookup widen_fields
lookup-widen_fields [] k h = refl
lookup-widen_fields ((j, v) ∷ d) k h = ground (arith, lookup-widen_fields d k)

widen_fields-NodupKeys : (d : Dict Text Scalar) → NodupKeys d → NodupKeys (widen_fields d)
unfolding widen_fields
widen_fields-NodupKeys [] u = tt
widen_fields-NodupKeys ((k, v) ∷ d) (fresh, u) =
    (lookup-widen_fields d k fresh, widen_fields-NodupKeys d u)

-- One field there and back.
wired : (v : Scalar) → (simple_value v >>= simple_value_of) ≡ ok (widen v)
unfolding simple_value simple_value_of
wired (int n) = refl
wired (int64 n) = refl
wired (string s) = refl
wired (stmt_ptr p) = refl
wired (body_ptr p) = refl

wired_fields :
    (d : Dict Text Scalar) (acc : Dict Text Scalar)
    → NodupKeys (acc ++ widen_fields d)
    → (compound_value d >>= fields_of acc) ≡ ok (acc ++ widen_fields d)
unfolding compound_value fields_of widen_fields
wired_fields [] acc u = rw append-nil
wired_fields ((k, v) ∷ d) acc u =
    let fresh = NodupKeys-append acc k (widen v) (widen_fields d) u in
    let (sv, made, back) = >>=-eq-ok (simple_value v) simple_value_of (wired v) in
    let split = append_assoc acc ((k, widen v) ∷ []) (widen_fields d) in
    let rest = wired_fields d (acc ++ ((k, widen v) ∷ [])) (rw split u) in
    rw made (
      >>=_assoc (compound_value d) _ _
      ∙ >>=_cong (compound_value d) _ (fields_of (acc ++ ((k, widen v) ∷ [])))
          (λ kvs. rw (back, put_new acc k (widen v) fresh))
      ∙ rest
      ∙ rw split)

-- A query result that is turned into its message and then back, both in memory, is the same value, but
-- that an `int` has become an `int64`; neither conversion fails. An object keeps its fields, and a
-- statement is the same pointer. The encoding of the message is not part of this.
pub value_of-result_value :
    (v : Value) → IsValue v → (result_value v >>= value_of) ≡ ok (widen_value v)
unfolding result_value value_of
value_of-result_value (scalar v) u =
    let (sv, made, back) = >>=-eq-ok (simple_value v) simple_value_of (wired v) in rw (made, back)
value_of-result_value (object d) u =
    let done = wired_fields d [] (widen_fields-NodupKeys d u) in
    let (kvs, made, back) = >>=-eq-ok (compound_value d) (fields_of []) done in rw (made, back)
