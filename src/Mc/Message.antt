-- ===== src/Mc/Message.antt =====
-- mc/message.go: peer descriptions and query values as messages.
pub mod Laws
use concat.Base.{
  ◌≡◌, Text, text_eq, codes, Option, none, some, List, [], ◌∷◌, map, Result, ok, err, value_error,
  ◌>>=◌,
}
use concat.Base.Int.{ℤ}
use concat.Base.Dict.{Dict, put}
use concat.Query.Selector.{Scalar, int, int64, string, stmt_ptr, body_ptr}
use concat.Query.ResultSet.{Value, scalar, object}
use Prim.Native.Nat.{ℕ}

-- peerstore.PeerInfo; an identity and an address are the bytes that libp2p and multiaddr hold.
pub record PeerInfo : Type 0 where
  pub id : Text
  pub addrs : List Text

-- pb.PeerInfo
pub record PbPeerInfo : Type 0 where
  pub id : Text
  pub addr : List Text

-- What libp2p and multiaddr do with identities and addresses.
pub record Codec : Type 0 where
  pub pretty : Text → Text
  pub decode_id : Text → Result Text
  pub addr_bytes : Text → Text
  pub decode_addr : Text → Result Text

-- What is printed or encoded is read back.
pub record IsLawful (c : Codec) : Type 0 where
  pub decode_id-pretty : (id : Text) → c.decode_id (c.pretty id) ≡ ok id
  pub decode_addr-addr_bytes : (addr : Text) → c.decode_addr (c.addr_bytes addr) ≡ ok addr

module _ (c : Codec) where
  unfoldable pub pb_from_peer_info : PeerInfo → PbPeerInfo
  pb_from_peer_info pinfo = record { id = c.pretty pinfo.id; addr = map c.addr_bytes pinfo.addrs }

  unfoldable pub decode_addrs : List Text → Result (List Text)
  decode_addrs [] = ok []
  decode_addrs (bytes ∷ rest) = do
    addr ← c.decode_addr bytes
    addrs ← decode_addrs rest
    ok (addr ∷ addrs)

  unfoldable pub pb_to_peer_info : PbPeerInfo → Result PeerInfo
  unfolding decode_addrs
  pb_to_peer_info pbpi = do
    pid ← c.decode_id pbpi.id
    addrs ← decode_addrs pbpi.addr
    ok (record { id = pid; addrs = addrs })

-- pb.SimpleValue: its oneof, and `unset`.
pub data PbSimpleValue : Type 0 where
  int_value : ℤ → PbSimpleValue
  string_value : Text → PbSimpleValue
  stmt : ℕ → PbSimpleValue
  stmt_body : ℕ → PbSimpleValue
  unset : PbSimpleValue

-- SimpleValue; the two integer types of Go become one.
unfoldable pub simple_value : Scalar → Result PbSimpleValue
simple_value (int val) = ok (int_value val)
simple_value (int64 val) = ok (int_value val)
simple_value (string val) = ok (string_value val)
simple_value (stmt_ptr val) = ok (stmt val)
simple_value (body_ptr val) = ok (stmt_body val)

-- CompoundValue: the loop over the fields of an object.
unfoldable pub compound_value : Dict Text Scalar → Result (List (Text × PbSimpleValue))
unfolding simple_value
compound_value [] = ok []
compound_value ((k, v) ∷ val) = do
  sv ← simple_value v
  kvpairs ← compound_value val
  ok ((k, sv) ∷ kvpairs)

-- pb.QueryResultValue
pub data PbResultValue : Type 0 where
  simple : PbSimpleValue → PbResultValue
  compound : List (Text × PbSimpleValue) → PbResultValue
  unset : PbResultValue

unfoldable pub simple_value_of : PbSimpleValue → Result Scalar
simple_value_of (int_value val) = ok (int64 val)
simple_value_of (string_value val) = ok (string val)
simple_value_of (stmt val) = ok (stmt_ptr val)
simple_value_of (stmt_body val) = ok (body_ptr val)
simple_value_of PbSimpleValue.unset = err (value_error (codes "Unexpected value type: <nil>"))

-- The loop of ValueOf over the pairs of a compound value: `obj[kv.Key] = sv`.
unfoldable pub fields_of :
    Dict Text Scalar → List (Text × PbSimpleValue) → Result (Dict Text Scalar)
unfolding simple_value_of
fields_of obj [] = ok obj
fields_of obj ((k, v) ∷ rest) = do sv ← simple_value_of v; fields_of (put obj k sv) rest

unfoldable pub value_of : PbResultValue → Result Value
unfolding fields_of
value_of (simple val) = simple_value_of val >>= λ v. ok (scalar v)
value_of (compound body) = fields_of [] body >>= λ obj. ok (object obj)
value_of PbResultValue.unset = err (value_error (codes "Unexpected value type: <nil>"))

-- writeValue of queryHandler in mcnode/proto.go, up to the write.
unfoldable pub result_value : Value → Result PbResultValue
unfolding compound_value
result_value (object val) = compound_value val >>= λ cv. ok (compound cv)
result_value (scalar val) = simple_value val >>= λ sv. ok (simple sv)
