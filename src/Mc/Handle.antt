-- ===== src/Mc/Handle.antt =====
-- mc/util.go: handles, the texts `multiaddr/p2p/id` of peers.
pub mod RoundTrip
use concat.Base.{
  Text, text_eq, nat_eq, codes, ◌==◌, Option, none, some, List, [], ◌∷◌, ◌++◌, Result, ok, err,
  ◌>>=◌, if◌then◌else◌,
}
use concat.Mc.Message.{PeerInfo}
use Prim.Native.Nat.{ℕ}

-- libp2p's and multiaddr's texts of identities and addresses.
pub record Texts : Type 0 where
  pub pretty : Text → Text
  pub decode_id : Text → Result Text
  pub addr_string : Text → Text
  pub new_multiaddr : Text → Result Text

-- `ix := strings.LastIndex(str, c)`: `str[:ix]` and `str[ix+1:]`, `none` for -1.
unfoldable pub split_last : ℕ → Text → Option (Text × Text)
split_last c [] = none
split_last c (x ∷ s) = elim (split_last c s) [
  | some parts ↦ some (x ∷ parts.0, parts.1)
  | none ↦ if x == c then some ([], s) else none
]

module _ (tx : Texts) where
  unfoldable pub format_handle : PeerInfo → Text
  format_handle pi = elim pi.addrs [
    | [] ↦ codes "/p2p/" ++ tx.pretty pi.id
    | addr ∷ addrs ↦ tx.addr_string addr ++ (codes "/p2p/" ++ tx.pretty pi.id)
  ]

  unfoldable pub parse_handle_id : Text → Result PeerInfo
  parse_handle_id str = do pid ← tx.decode_id str; ok (record { id = pid; addrs = [] })

  -- The switch on the text before the identity.
  abbrev pub address_part : Text → Option (Text × Text) → Text
  address_part front none = front
  address_part front (some (addr, last)) = if last == codes "p2p" then addr else front

  -- What ParseHandle does with `addr` and `id`.
  unfoldable pub parse_parts : Text → Text → Result PeerInfo
  parse_parts addr id = do
    pid ← tx.decode_id id
    if addr == []
        then ok (record { id = pid; addrs = [] })
        else (tx.new_multiaddr addr >>= λ maddr. ok (record { id = pid; addrs = maddr ∷ [] }))

  unfoldable pub parse_handle : Text → Result PeerInfo
  unfolding split_last parse_handle_id parse_parts
  parse_handle str = elim (split_last b'/' str) [
    | none ↦ parse_handle_id str
    | some parts ↦ parse_parts (address_part parts.0 (split_last b'/' parts.0)) parts.1
  ]
