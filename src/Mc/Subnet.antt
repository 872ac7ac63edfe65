-- ===== src/Mc/Subnet.antt =====
-- mc/util.go: which addresses are local, private, routable and public.
use concat.Base.{
  ◌≡◌, refl, arith, Text, codes, Bool, false, not, ◌||◌, ◌&&◌, Option, none, some, List, [], ◌∷◌,
  any, keep,
}

-- multiaddr's value of an address for ip4, package net's reading of it, and whether a subnet, in
-- CIDR notation, contains it.
pub record Ip4 (Ip : Type 0) : Type 0 where
  pub value_for_ip4 : Text → Option Text
  pub parse_ip : Text → Option Ip
  pub net_contains : Text → Ip → Bool

abbrev pub localhost_cidr : List Text
localhost_cidr = codes "127.0.0.0/8" ∷ []

abbrev pub link_local_cidr : List Text
link_local_cidr = codes "169.254.0.0/16" ∷ []

abbrev pub private_cidr : List Text
private_cidr =
    codes "10.0.0.0/8" ∷ codes "100.64.0.0/10" ∷ codes "172.16.0.0/12" ∷ codes "192.168.0.0/16" ∷ []

abbrev pub unroutable_cidr : List Text
unroutable_cidr = codes "0.0.0.0/8" ∷ codes "127.0.0.0/8" ∷ codes "169.254.0.0/16" ∷ []

abbrev pub internal_cidr : List Text
internal_cidr =
    codes "0.0.0.0/8"
    ∷ codes "127.0.0.0/8"
    ∷ codes "169.254.0.0/16"
    ∷ codes "10.0.0.0/8"
    ∷ codes "100.64.0.0/10"
    ∷ codes "172.16.0.0/12"
    ∷ codes "192.168.0.0/16"
    ∷ []

module _ {Ip : Type 0} (ip4 : Ip4 Ip) where
  abbrev pub in_some : Option Ip → List Text → Bool
  in_some none nets = false
  in_some (some ip) nets = any (λ net. ip4.net_contains net ip) nets

  abbrev pub read_ip : Option Text → Option Ip
  read_ip none = none
  read_ip (some ipstr) = ip4.parse_ip ipstr

  unfoldable pub is_addr_subnet : Text → List Text → Bool
  is_addr_subnet addr nets = in_some (read_ip (ip4.value_for_ip4 addr)) nets

  unfoldable pub is_localhost_addr : Text → Bool
  unfolding is_addr_subnet
  is_localhost_addr addr = is_addr_subnet addr localhost_cidr

  unfoldable pub is_link_local_addr : Text → Bool
  unfolding is_addr_subnet
  is_link_local_addr addr = is_addr_subnet addr link_local_cidr

  unfoldable pub is_private_addr : Text → Bool
  unfolding is_addr_subnet
  is_private_addr addr = is_addr_subnet addr private_cidr

  unfoldable pub is_routable_addr : Text → Bool
  unfolding is_addr_subnet
  is_routable_addr addr = not (is_addr_subnet addr unroutable_cidr)

  unfoldable pub is_public_addr : Text → Bool
  unfolding is_addr_subnet
  is_public_addr addr = not (is_addr_subnet addr internal_cidr)

  -- FilterAddrs
  unfoldable pub filter_addrs : List Text → (Text → Bool) → List Text
  filter_addrs addrs predf = keep predf addrs

  -- An address is public exactly where it is routable and not private, and it is routable only where
  -- it is neither of the local host nor link local.
  pub is_public_addr_lem :
      (addr : Text)
      → (is_public_addr addr ≡ (is_routable_addr addr && not (is_private_addr addr)))
        × ((is_routable_addr addr && (is_localhost_addr addr || is_link_local_addr addr)) ≡ false)
  unfolding is_public_addr is_routable_addr is_private_addr is_localhost_addr is_link_local_addr
  is_public_addr_lem addr = by_ip (read_ip (ip4.value_for_ip4 addr))
    where
      by_ip :
          (o : Option Ip)
          → (not (in_some o internal_cidr)
              ≡ (not (in_some o unroutable_cidr) && not (in_some o private_cidr)))
            × ((not (in_some o unroutable_cidr)
                  && (in_some o localhost_cidr || in_some o link_local_cidr))
                ≡ false)
      by_ip none = (refl, refl)
      by_ip (some ip) = (ground arith, ground arith)
