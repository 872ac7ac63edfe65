-- ===== src/Node/Network/Changes.antt =====
-- The network state over changes of the status.
use concat.Base.{
  ◌≡◌, ◌≢◌, refl, sym, ap, subst, ◌∙◌, arith, Text, text_eq, codes, ◌==◌, Bool, true, false, Option,
  none, some, List, [], ◌∷◌, Error, Result, ok, err, panic, no_directory, if◌then◌else◌,
}
use concat.Mc.Message.{PeerInfo}
use concat.Node.Status.{Status, offline, online, public_status}
use concat.Node.Network.{
  Hosts, Net, closing, close_network, go_offline, port_map, started, start_network, with_status,
  go_online, register, go_public, set_status,
}

module _ {Host : Type 0} (hosts : Hosts Host) where
  -- What goes with a status: an offline node has no host and registers with nothing; another has a
  -- host with its services, and a public one, and no other, registers with each directory and the
  -- DHT, once.
  abbrev pub Fits : Status → Net Host → Type 0
  Fits offline node =
      (node.host ≡ none)
      × (node.ping ≡ false)
      × (node.dht ≡ false)
      × (node.registers ≡ [])
      × (node.registers_dht ≡ false)
  Fits online node =
      ((h : Host) × (node.host ≡ some h))
      × (node.ping ≡ true)
      × (node.dht ≡ true)
      × (node.registers ≡ [])
      × (node.registers_dht ≡ false)
  Fits public_status node =
      ((h : Host) × (node.host ≡ some h))
      × (node.ping ≡ true)
      × (node.dht ≡ true)
      × (node.registers ≡ node.dir)
      × (node.registers_dht ≡ true)

  abbrev pub IsWell : Net Host → Type 0
  IsWell node = Fits node.status node

  -- A new host is made or there is an error.
  abbrev pub Hostable : Type 0
  Hostable = (b : Bool) → hosts.new_host b ≢ panic

  -- A change that does not panic, and leaves a well-formed state with the same directories.
  abbrev Changed : Net Host → Result (Unit {0}) × Net Host → Type 0
  Changed node (r, node') = (r ≢ panic) × IsWell node' × (node'.dir ≡ node.dir)

  close_network-Changed :
      (h : Option Host) (host : Host) (node : Net Host)
      → h ≡ some host
      → Changed node (close_network hosts h node)
  unfolding close_network
  close_network-Changed none host node e = ground arith
  close_network-Changed (some x) host node e =
      (not_panic (hosts.close x), (refl, refl, refl, refl, refl), refl)
    where
      not_panic : (o : Option Error) → closing o ≢ panic
      not_panic none e = ground arith
      not_panic (some y) e = ground arith

  go_offline-Changed : (node : Net Host) → IsWell node → Changed node (go_offline hosts node)
  unfolding go_offline
  go_offline-Changed node well = by_status node.status refl well
    where
      by_status :
          (s : Status)
          → node.status ≡ s
          → Fits s node
          → Changed node (elim s [
            | offline ↦ (ok tt, node)
            | online ↦ close_network hosts node.host node
            | public_status ↦ close_network hosts node.host node
          ])
      by_status offline is fits =
          ((λ e. ground arith), subst (λ t. Fits t node) (sym is) fits, refl)
      by_status online is ((h, e), _, _, _, _) = close_network-Changed node.host h node e
      by_status public_status is ((h, e), _, _, _, _) = close_network-Changed node.host h node e

  -- A start of an offline network.
  abbrev Started : Net Host → Result (Unit {0}) × Net Host → Type 0
  Started node (ok u, node') =
      ((h : Host) × (node'.host ≡ some h))
      × (node'.ping ≡ true)
      × (node'.dht ≡ true)
      × (node'.registers ≡ [])
      × (node'.registers_dht ≡ false)
      × (node'.dir ≡ node.dir)
  Started node (err e, node') = node' ≡ node
  Started node (panic, node') = ⊥

  start_network-Started :
      (node : Net Host) → Hostable → Fits offline node → Started node (start_network hosts node)
  unfolding start_network started
  start_network-Started node hostable (h, p, d, r, rd) =
      made (hosts.new_host (port_map hosts node.nat_cfg.opt)) refl
    where
      made :
          (r : Result Host)
          → hosts.new_host (port_map hosts node.nat_cfg.opt) ≡ r
          → Started node (started hosts r node)
      made panic e = hostable (port_map hosts node.nat_cfg.opt) e
      made (err x) e = refl
      made (ok host) e = ((host, refl), refl, refl, r, rd, refl)

  go_online-Changed :
      (node : Net Host) → Hostable → IsWell node → Changed node (go_online hosts node)
  unfolding go_online
  go_online-Changed node hostable well = by_status node.status refl well
    where
      on :
          (r : Result (Unit {0}) × Net Host)
          → node.status ≡ offline
          → IsWell node
          → Started node r
          → Changed node (with_status hosts online r)
      on (ok u, node') is w (h, p, d, r, rd, dir) = ((λ e. ground arith), (h, p, d, r, rd), dir)
      on (err x, node') is w same =
          ((λ e. ground arith), subst IsWell (sym same) w, ap (λ n. n.dir) same)
      on (panic, node') is w bad = absurd bad

      by_status :
          (s : Status)
          → node.status ≡ s
          → Fits s node
          → Changed node (elim s [
            | offline ↦ with_status hosts online (start_network hosts node)
            | online ↦ (ok tt, node)
            | public_status ↦ (ok tt, node)
          ])
      by_status offline is fits =
          on (start_network hosts node) is well (start_network-Started node hostable fits)
      by_status online is fits = ((λ e. ground arith), well, refl)
      by_status public_status is fits = ((λ e. ground arith), well, refl)

  go_public-Changed :
      (node : Net Host) → Hostable → IsWell node → Changed node (go_public hosts node)
  unfolding go_public register
  go_public-Changed node hostable well = with_dir node.dir
    where
      from_offline :
          (r : Result (Unit {0}) × Net Host) → Started node r → Changed node (register hosts r)
      from_offline (ok u, node') (h, p, d, r, rd, dir) =
          ((λ e. ground arith), (h, p, d, rw r refl, refl), dir)
      from_offline (err x, node') same =
          ((λ e. ground arith), subst IsWell (sym same) well, ap (λ n. n.dir) same)
      from_offline (panic, node') bad = absurd bad

      by_status :
          (s : Status)
          → node.status ≡ s
          → Fits s node
          → Changed node (elim s [
            | offline ↦ register hosts (start_network hosts node)
            | online ↦ register hosts (ok tt, node)
            | public_status ↦ (ok tt, node)
          ])
      by_status offline is fits =
          from_offline (start_network hosts node) (start_network-Started node hostable fits)
      by_status online is (h, p, d, r, rd) = ((λ e. ground arith), (h, p, d, rw r refl, refl), refl)
      by_status public_status is fits = ((λ e. ground arith), well, refl)

      with_dir :
          (dirs : List PeerInfo)
          → Changed node (elim dirs [
            | [] ↦ (err no_directory, node)
            | dir ∷ more ↦ elim node.status [
              | offline ↦ register hosts (start_network hosts node)
              | online ↦ register hosts (ok tt, node)
              | public_status ↦ (ok tt, node)
            ]
          ])
      with_dir [] = ((λ e. ground arith), well, refl)
      with_dir (dir ∷ more) = by_status node.status refl well

  if-Changed :
      (node : Net Host) (b : Bool) (r r' : Result (Unit {0}) × Net Host)
      → Changed node r
      → Changed node r'
      → Changed node (if b then r else r')
  if-Changed node true r r' c c' = c
  if-Changed node false r r' c c' = c'

  set_status-Changed :
      (state : Text) (node : Net Host)
      → Hostable
      → IsWell node
      → Changed node (set_status hosts state node)
  unfolding set_status
  set_status-Changed state node hostable well =
      if-Changed node (state == codes "offline") _ _ (go_offline-Changed node well) (
        if-Changed node (state == codes "online") _ _ (go_online-Changed node hostable well) (
          if-Changed node (state == codes "public") _ _ (go_public-Changed node hostable well)
            ((λ e. ground arith), well, refl)))

  -- The states that requests to change the status lead to, none of which panics.
  pub data Reaches : Net Host → Net Host → Type 0 where
    here : {node : Net Host} → Reaches node node
    step :
        {node last : Net Host} (state : Text)
        → (set_status hosts state node).0 ≢ panic
        → Reaches (set_status hosts state node).1 last
        → Reaches node last

  unfoldable pub set_all : List Text → Net Host → Net Host
  set_all [] node = node
  set_all (state ∷ states) node = set_all states (set_status hosts state node).1

  -- Requests to change the status, from a well-formed state, end in a well-formed state with the same
  -- directories and none of them panics, where making a host does not: an offline node has no host, no
  -- ping service and no DHT and registers with nothing, an online node has them and registers with
  -- nothing, and a public node has them and registers once with each directory and with the DHT.
  pub set_all-IsWell :
      (states : List Text) (node : Net Host)
      → Hostable
      → IsWell node
      → Reaches node (set_all states node)
        × IsWell (set_all states node)
        × ((set_all states node).dir ≡ node.dir)
  unfolding set_all
  set_all-IsWell [] node hostable well = (here, well, refl)
  set_all-IsWell (state ∷ states) node hostable well =
      let (fine, well', dir) = set_status-Changed state node hostable well in
      let (reaches, well'', dir') =
        set_all-IsWell states (set_status hosts state node).1 hostable well' in
      (step state fine reaches, well'', dir' ∙ dir)
