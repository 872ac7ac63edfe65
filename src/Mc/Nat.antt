-- ===== src/Mc/Nat.antt =====
-- mc/nat.go: the NAT configuration of a node.
use concat.Base.{
  Text, text_eq, text_dec, nat_eq, codes, ◌==◌, ◌≡◌, refl, sym, ap, subst, ◌∙◌, arith, Bool, true,
  false, Option, none, some, List, [], ◌∷◌, ◌++◌, Result, ok, err, panic, bad_address_spec,
  ifconfig_error, ◌>>=◌, >>=-eq-ok, if◌then◌else◌,
}
use concat.Mc.Handle.{split_last}

pub data NatOpt : Type 0 where
  nat_none nat_auto nat_manual : NatOpt

-- NATConfig
pub record NatConfig : Type 0 where
  pub opt : NatOpt
  pub spec : Text
  pub addr : Option Text

-- The regular expression of init in the syntax of package regexp.
abbrev pub natcfg_pattern : Text
natcfg_pattern = codes "([*])|([*]:[0-9]+)|([0-9]{1,3}([.][0-9]{1,3}){3}:[0-9]+)"

-- The request to a service for the public address, the TCP port of an address, multiaddr's reading
-- of a text, and package regexp.
pub record Outside : Type 0 where
  pub get_public_ip_from : Text → Result Text
  pub value_for_tcp : Text → Result Text
  pub new_multiaddr : Text → Result Text
  pub matches : Text → Text → Bool

unfoldable pub string : NatConfig → Text
string cfg = elim cfg.opt [
  | nat_none ↦ codes "none"
  | nat_auto ↦ codes "auto"
  | nat_manual ↦ cfg.spec
]

unfoldable pub clear : NatConfig → NatConfig
clear cfg = record cfg { addr = none }

abbrev pub ifconfig_svc : List Text
ifconfig_svc = codes "http://ifconfig.mediachain.io/ip" ∷ codes "http://ifconfig.co/ip" ∷ []

module _ (out : Outside) where
  -- The loop of GetPublicIP.
  unfoldable pub try_services : List Text → Result Text
  try_services [] = err ifconfig_error
  try_services (url ∷ urls) = elim (out.get_public_ip_from url) [
    | ok ip ↦ ok ip
    | err e ↦ try_services urls
    | panic ↦ panic
  ]

  unfoldable pub get_public_ip : Result Text
  unfolding try_services
  get_public_ip = try_services ifconfig_svc

  -- makePublicAddr, with the configuration that keeps the address.
  unfoldable pub make_public_addr : NatConfig → Text → Text → Result (Text × NatConfig)
  make_public_addr cfg addr port = do
    maddr ← out.new_multiaddr (codes "/ip4/" ++ (addr ++ (codes "/tcp/" ++ port)))
    ok (maddr, record cfg { addr = some maddr })

  -- The switch of PublicAddr on the last colon of the specification.
  unfoldable pub from_spec : NatConfig → Text → Option (Text × Text) → Result (Text × NatConfig)
  unfolding make_public_addr get_public_ip
  from_spec cfg base none = do
    addr ← get_public_ip
    port ← out.value_for_tcp base
    make_public_addr cfg addr port
  from_spec cfg base (some (host, port)) =
      if host == codes "*"
      then (get_public_ip >>= λ addr. make_public_addr cfg addr port)
      else make_public_addr cfg host port

  -- PublicAddr of a manual configuration, with its address or none yet.
  unfoldable pub manual_addr : NatConfig → Text → Option Text → Result (Text × NatConfig)
  unfolding from_spec
  manual_addr cfg base (some known) = ok (known, cfg)
  manual_addr cfg base none = from_spec cfg base (split_last b':' cfg.spec)

  unfoldable pub public_addr : NatConfig → Text → Result (Text × NatConfig)
  unfolding manual_addr
  public_addr cfg base = elim cfg.opt [
    | nat_none ↦ err bad_address_spec
    | nat_auto ↦ err bad_address_spec
    | nat_manual ↦ manual_addr cfg base cfg.addr
  ]

  unfoldable pub nat_config_from_string : Text → Result NatConfig
  nat_config_from_string str =
      if str == codes "none"
      then ok (record { opt = nat_none; spec = []; addr = none })
      else if str == codes "auto"
      then ok (record { opt = nat_auto; spec = []; addr = none })
      else if out.matches natcfg_pattern str
      then ok (record { opt = nat_manual; spec = str; addr = none })
      else err bad_address_spec

  -- A manual configuration that keeps an address.
  abbrev Keeps : Text → NatConfig → Type 0
  Keeps maddr cfg = (cfg.opt ≡ nat_manual) × (cfg.addr ≡ some maddr)

  make_public_addr-Keeps :
      (cfg cfg' : NatConfig) (addr port maddr : Text)
      → cfg.opt ≡ nat_manual
      → make_public_addr cfg addr port ≡ ok (maddr, cfg')
      → Keeps maddr cfg'
  unfolding make_public_addr
  make_public_addr-Keeps cfg cfg' addr port maddr manual e =
      let (m, _, e2) =
        >>=-eq-ok (out.new_multiaddr (codes "/ip4/" ++ (addr ++ (codes "/tcp/" ++ port)))) _ e in
      let same : m ≡ maddr = ground arith in
      let is : record cfg { addr = some m } ≡ cfg' = ground arith in
      subst (Keeps maddr) is (manual, ap some same)

  from_spec-Keeps :
      (cfg cfg' : NatConfig) (base maddr : Text) (parts : Option (Text × Text))
      → cfg.opt ≡ nat_manual
      → from_spec cfg base parts ≡ ok (maddr, cfg')
      → Keeps maddr cfg'
  unfolding from_spec
  from_spec-Keeps cfg cfg' base maddr none manual e =
      let (ip, _, e1) = >>=-eq-ok get_public_ip _ e in
      let (port, _, e2) = >>=-eq-ok (out.value_for_tcp base) _ e1 in
      make_public_addr-Keeps cfg cfg' ip port maddr manual e2
  from_spec-Keeps cfg cfg' base maddr (some (host, port)) manual e = starred (host == codes "*") e
    where
      starred :
          (b : Bool)
          → (if b
              then (get_public_ip >>= λ ip. make_public_addr cfg ip port)
              else make_public_addr cfg host port)
            ≡ ok (maddr, cfg')
          → Keeps maddr cfg'
      starred true i =
          let (ip, _, e1) = >>=-eq-ok get_public_ip _ i in
          make_public_addr-Keeps cfg cfg' ip port maddr manual e1
      starred false i = make_public_addr-Keeps cfg cfg' host port maddr manual i

  manual_addr-Keeps :
      (cfg cfg' : NatConfig) (base maddr : Text) (known : Option Text)
      → cfg.opt ≡ nat_manual
      → cfg.addr ≡ known
      → manual_addr cfg base known ≡ ok (maddr, cfg')
      → Keeps maddr cfg'
  unfolding manual_addr
  manual_addr-Keeps cfg cfg' base maddr none manual a e =
      from_spec-Keeps cfg cfg' base maddr (split_last b':' cfg.spec) manual e
  manual_addr-Keeps cfg cfg' base maddr (some k) manual a e =
      let same : k ≡ maddr = ground arith in
      let is : cfg ≡ cfg' = ground arith in subst (Keeps maddr) is (manual, a ∙ ap some same)

  -- The public address is determined once: a call after one that succeeded gives the same address,
  -- for any listening address, and leaves the configuration as it is.
  pub public_addr-again :
      (cfg cfg' : NatConfig) (base other_base maddr : Text)
      → public_addr cfg base ≡ ok (maddr, cfg')
      → public_addr cfg' other_base ≡ ok (maddr, cfg')
  unfolding public_addr manual_addr
  public_addr-again cfg cfg' base other_base maddr e = kept (first cfg.opt refl e)
    where
      first :
          (o : NatOpt)
          → cfg.opt ≡ o
          → (elim o [
            | nat_none ↦ err bad_address_spec
            | nat_auto ↦ err bad_address_spec
            | nat_manual ↦ manual_addr cfg base cfg.addr
          ])
            ≡ ok (maddr, cfg')
          → Keeps maddr cfg'
      first nat_none o i = ground arith
      first nat_auto o i = ground arith
      first nat_manual o i = manual_addr-Keeps cfg cfg' base maddr cfg.addr o refl i

      kept : Keeps maddr cfg' → public_addr cfg' other_base ≡ ok (maddr, cfg')
      kept (manual, known) =
          subst
            (λ o.
              (elim o [
                | nat_none ↦ err bad_address_spec
                | nat_auto ↦ err bad_address_spec
                | nat_manual ↦ manual_addr cfg' other_base cfg'.addr
              ])
              ≡ ok (maddr, cfg'))
            (sym manual)
            (subst (λ a. manual_addr cfg' other_base a ≡ ok (maddr, cfg')) (sym known) refl)

  -- A configuration that was read from a text prints as that text.
  pub string-nat_config_from_string :
      (str : Text) (cfg : NatConfig) → nat_config_from_string str ≡ ok cfg → string cfg ≡ str
  unfolding nat_config_from_string string
  string-nat_config_from_string str cfg e = elim (text_dec str (codes "none")) [
    | yes is_none ↦
        let is : record { opt = nat_none; spec = []; addr = none } ≡ cfg = ground arith in
        subst (λ c. string c ≡ str) is (sym is_none)
    | no not_none ↦ elim (text_dec str (codes "auto")) [
      | yes is_auto ↦
          let is : record { opt = nat_auto; spec = []; addr = none } ≡ cfg = ground arith in
          subst (λ c. string c ≡ str) is (sym is_auto)
      | no not_auto ↦ manual (out.matches natcfg_pattern str) (ground arith)
    ]
  ]
    where
      manual :
          (b : Bool)
          → (if b
              then ok (record { opt = nat_manual; spec = str; addr = none })
              else err bad_address_spec)
            ≡ ok cfg
          → string cfg ≡ str
      manual true i =
          let is : record { opt = nat_manual; spec = str; addr = none } ≡ cfg = ground arith in
          subst (λ c. string c ≡ str) is refl
      manual false i = ground arith
