-- ===== src/Node/Network.antt =====
-- mcnode/net.go and mcnode/api.go: the network state of a node, its changes, and its addresses.
-- libp2p's host and the DHT are parameters.
pub mod Changes
use concat.Base.{
  Text, text_eq, codes, ◌==◌, Bool, true, false, Option, none, some, List, [], ◌∷◌, ◌++◌, Error,
  Result, ok, err, panic, no_directory, bad_state, ◌>>=◌, if◌then◌else◌,
}
use concat.Mc.Message.{PeerInfo}
use concat.Mc.Nat.{NatOpt, nat_none, nat_auto, nat_manual, NatConfig, clear, Outside, public_addr}
use concat.Mc.Subnet.{
  Ip4, is_localhost_addr, is_private_addr, is_routable_addr, is_public_addr, filter_addrs,
}
use concat.Node.Status.{Status, offline, online, public_status}

-- NewHost, with the option for port mapping or not, the end of a host, and its addresses.
pub record Hosts (Host : Type 0) : Type 0 where
  pub new_host : Bool → Result Host
  pub close : Host → Option Error
  pub addrs : Host → List Text

-- The fields of Node for the network; `ping` and `dht` say whether they are not nil, and
-- `registers` holds the directories, and `registers_dht` tells of the DHT, that goroutines under
-- netCtx register with. They end when the context is cancelled.
pub record Net (Host : Type 0) : Type 0 where
  pub status : Status
  pub host : Option Host
  pub ping : Bool
  pub dht : Bool
  pub dir : List PeerInfo
  pub registers : List PeerInfo
  pub registers_dht : Bool
  pub laddr : Text
  pub nat_cfg : NatConfig

-- The failure of `Close`, which is returned at the end.
abbrev pub closing : Option Error → Result (Unit {0})
closing none = ok tt
closing (some e) = err e

module _ {Host : Type 0} (hosts : Hosts Host) where
  -- goOffline with a host, or without one, of which `Close` panics.
  unfoldable pub close_network : Option Host → Net Host → Result (Unit {0}) × Net Host
  unfolding clear
  close_network none node = (panic, node)
  close_network (some host) node = (
    closing (hosts.close host),
    record node {
      status = offline;
      host = none;
      ping = false;
      dht = false;
      registers = [];
      registers_dht = false;
      nat_cfg = clear node.nat_cfg;
    },
  )

  unfoldable pub go_offline : Net Host → Result (Unit {0}) × Net Host
  unfolding close_network
  go_offline node = elim node.status [
    | offline ↦ (ok tt, node)
    | online ↦ close_network node.host node
    | public_status ↦ close_network node.host node
  ]

  abbrev pub port_map : NatOpt → Bool
  port_map nat_none = false
  port_map nat_auto = true
  port_map nat_manual = false

  -- _goOnline; an error of the DHT's Bootstrap is only logged.
  unfoldable pub started : Result Host → Net Host → Result (Unit {0}) × Net Host
  started panic node = (panic, node)
  started (err e) node = (err e, node)
  started (ok host) node = (ok tt, record node { host = some host; ping = true; dht = true })

  unfoldable pub start_network : Net Host → Result (Unit {0}) × Net Host
  unfolding started
  start_network node = started (hosts.new_host (port_map node.nat_cfg.opt)) node

  abbrev pub with_status : Status → Result (Unit {0}) × Net Host → Result (Unit {0}) × Net Host
  with_status s (ok u, node) = (ok u, record node { status = s })
  with_status s (err e, node) = (err e, node)
  with_status s (panic, node) = (panic, node)

  unfoldable pub go_online : Net Host → Result (Unit {0}) × Net Host
  unfolding start_network
  go_online node = elim node.status [
    | offline ↦ with_status online (start_network node)
    | online ↦ (ok tt, node)
    | public_status ↦ (ok tt, node)
  ]

  -- The case of an online node in goPublic.
  unfoldable pub register : Result (Unit {0}) × Net Host → Result (Unit {0}) × Net Host
  register (ok u, node) = (
    ok u,
    record node {
      status = public_status;
      registers = node.registers ++ node.dir;
      registers_dht = true;
    },
  )
  register (err e, node) = (err e, node)
  register (panic, node) = (panic, node)

  unfoldable pub go_public : Net Host → Result (Unit {0}) × Net Host
  unfolding start_network register
  go_public node = elim node.dir [
    | [] ↦ (err no_directory, node)
    | dir ∷ dirs ↦ elim node.status [
      | offline ↦ register (start_network node)
      | online ↦ register (ok tt, node)
      | public_status ↦ (ok tt, node)
    ]
  ]

  -- The switch of httpStatusSet on the state.
  unfoldable pub set_status : Text → Net Host → Result (Unit {0}) × Net Host
  unfolding go_offline go_online go_public
  set_status state node =
      if state == codes "offline"
      then go_offline node
      else if state == codes "online"
      then go_online node
      else if state == codes "public"
      then go_public node
      else (err bad_state, node)

  abbrev pub status_string : Status → Text
  status_string offline = codes "offline"
  status_string online = codes "online"
  status_string public_status = codes "public"

  module _ {Ip : Type 0} (ip4 : Ip4 Ip) (out : Outside) where
    -- natAddr, with the configuration that it leaves; an error of PublicAddr is only logged.
    abbrev pub addr_of : Result (Text × NatConfig) → NatConfig → Option Text × NatConfig
    addr_of (ok (maddr, cfg')) cfg = (some maddr, cfg')
    addr_of (err e) cfg = (none, cfg)
    addr_of panic cfg = (none, cfg)

    unfoldable pub nat_addr : Net Host → Option Text × NatConfig
    nat_addr node = elim node.nat_cfg.opt [
      | nat_none ↦ (none, node.nat_cfg)
      | nat_auto ↦ (none, node.nat_cfg)
      | nat_manual ↦ addr_of (public_addr out node.nat_cfg node.laddr) node.nat_cfg
    ]

    abbrev pub optional : Option Text → List Text
    optional none = []
    optional (some addr) = addr ∷ []

    -- The default case of publicAddrs.
    unfoldable pub directory_is_public : Net Host → Host → List Text
    unfolding nat_addr
    directory_is_public node host = elim node.nat_cfg.opt [
      | nat_none ↦ filter_addrs ip4 (hosts.addrs host) (is_public_addr ip4)
      | nat_auto ↦ filter_addrs ip4 (hosts.addrs host) (is_public_addr ip4)
      | nat_manual ↦ optional (nat_addr node).0
    ]

    -- publicAddrs for the first address of a directory; without one it panics.
    unfoldable pub addrs_for : Text → Net Host → Host → List Text
    unfolding directory_is_public
    addrs_for diraddr node host =
        if is_localhost_addr ip4 diraddr
        then filter_addrs ip4 (hosts.addrs host) (is_localhost_addr ip4)
        else if is_private_addr ip4 diraddr
        then filter_addrs ip4 (hosts.addrs host) (is_routable_addr ip4)
        else directory_is_public node host

    -- The host of a node that is not offline, and the address of the directory.
    unfoldable pub addrs_online : List Text → Option Host → Net Host → Result (List Text)
    unfolding addrs_for
    addrs_online [] h node = panic
    addrs_online (diraddr ∷ more) none node = panic
    addrs_online (diraddr ∷ more) (some host) node = ok (addrs_for diraddr node host)

    unfoldable pub public_addrs : Net Host → PeerInfo → Result (List Text)
    unfolding addrs_online
    public_addrs node dir = elim node.status [
      | offline ↦ ok []
      | online ↦ addrs_online dir.addrs node.host node
      | public_status ↦ addrs_online dir.addrs node.host node
    ]

    abbrev pub routable : Option Host → Net Host → Result (List Text)
    routable none node = panic
    routable (some host) node =
        ok
          (filter_addrs ip4 (hosts.addrs host) (is_routable_addr ip4) ++ optional (nat_addr node).0)

    -- netAddrs
    unfoldable pub net_addrs : Net Host → Result (List Text)
    unfolding nat_addr
    net_addrs node = elim node.status [
      | offline ↦ ok []
      | online ↦ routable node.host node
      | public_status ↦ routable node.host node
    ]
