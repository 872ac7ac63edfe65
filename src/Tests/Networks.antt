-- ===== src/Tests/Networks.antt =====
-- Runs of the network state, of handles and addresses, and of requests.
use concat.Base.{
  ltb, true, ℕ, ◌+◌, ◌-◌, ap, ◌≡◌, refl, false, not, ◌||◌, ◌&&◌, ◌==◌, Text, text_eq, nat_eq, codes,
  none, some, List, [], ◌∷◌, ◌++◌, Result, ok, arith, contains, Nodup, length,
}
use concat.Base.Int.{ℤ, pos}
use concat.Base.Dict.{lookup}
use concat.Query.Statement.{SimpleStatement, Statement, header}
use concat.Mc.Message.{PeerInfo}
use concat.Mc.Handle.{Texts, format_handle, parse_handle}
use concat.Mc.Handle.RoundTrip.{IsReadable, first_only, parse_handle-format_handle}
use concat.Mc.Subnet.{
  Ip4, is_public_addr, is_routable_addr, is_private_addr, is_localhost_addr, is_link_local_addr,
  is_public_addr_lem,
}
use concat.Mc.Nat.{nat_auto}
use concat.Node.Status.{offline}
use concat.Node.Network.{Hosts, Net}
use concat.Node.Network.Changes.{IsWell, Reaches, set_all, set_all-IsWell}
use concat.Node.Api.{Requests, decode_all, grouped}
use concat.Node.Api.Groups.{flatten, AreGroups, grouped-AreGroups}
use concat.Node.Statements.{
  Publication, simple_statement, Maker, Signer, ids, do_import, do_publish_batch,
}
use concat.Node.Statements.Verified.{IsCache, by_each, do_import-by_each}
use concat.Node.Statements.Made.{IsPrinter, AllMade, do_publish_batch-made}
use concat.Node.Database.{merge_batch}
use concat.Tests.Nodes.{pets, more_pets, sql, coding, no_tables}
use concat.Tests.Exchanges.{verifier}

abbrev hosts : Hosts ℕ
hosts = record { new_host = λ b. ok 7; close = λ h. none; addrs = λ h. [] }

abbrev node : Net ℕ
node = record {
  status = offline;
  host = none;
  ping = false;
  dht = false;
  dir = record { id = codes "dir"; addrs = [] } ∷ [];
  registers = [];
  registers_dht = false;
  laddr = codes "here";
  nat_cfg = record { opt = nat_auto; spec = []; addr = none };
}

abbrev states : List Text
states = codes "public" ∷ codes "online" ∷ codes "offline" ∷ codes "online" ∷ codes "away" ∷ []

set_all-IsWell_example :
    Reaches hosts node (set_all hosts states node)
    × IsWell hosts (set_all hosts states node)
    × ((set_all hosts states node).dir ≡ node.dir)
set_all-IsWell_example =
    set_all-IsWell hosts states node (λ b e. ground arith) (refl, refl, refl, refl, refl)

-- Identities are printed byte by byte behind the slash in the order of bytes, and addresses with a
-- slash before them.
above_slash : Text → Text
above_slash [] = []
above_slash (c ∷ id) = (c + 48) ∷ above_slash id

below_slash : Text → Text
below_slash [] = []
below_slash (c ∷ s) = (c - 48) ∷ below_slash s

read_addr : Text → Result Text
read_addr [] = ok []
read_addr (c ∷ s) = ok s

abbrev texts : Texts
texts = record {
  pretty = above_slash;
  decode_id = λ s. ok (below_slash s);
  addr_string = λ addr. b'/' ∷ addr;
  new_multiaddr = read_addr;
}

below_slash-above_slash : (id : Text) → below_slash (above_slash id) ≡ id
unfolding below_slash above_slash
below_slash-above_slash [] = refl
below_slash-above_slash (c ∷ id) = ground (arith, below_slash-above_slash id)

above_slash-no_slash : (id : Text) → contains (above_slash id) b'/' ≡ false
unfolding above_slash
above_slash-no_slash [] = refl
above_slash-no_slash (c ∷ id) = ground (arith, above_slash-no_slash id)

texts-IsReadable : IsReadable texts
unfolding read_addr
texts-IsReadable = record {
  decode_id-pretty = λ id. ap ok (below_slash-above_slash id);
  new_multiaddr-addr_string = λ addr. refl;
  no_slash = above_slash-no_slash;
  not_empty = λ addr e. ground arith;
}

abbrev bob : PeerInfo
bob = record { id = codes "bob"; addrs = codes "ip4/1" ∷ codes "ip4/2" ∷ [] }

parse_handle-format_handle_example :
    parse_handle texts (format_handle texts bob)
    ≡ ok (record { id = bob.id; addrs = first_only bob.addrs })
parse_handle-format_handle_example = parse_handle-format_handle texts texts-IsReadable bob

-- An address is the text of a subnet that it is in.
abbrev ip4 : Ip4 Text
ip4 = record {
  value_for_ip4 = λ addr. some addr;
  parse_ip = λ s. some s;
  net_contains = λ net ip. net == ip;
}

is_public_addr_lem_example :
    (is_public_addr ip4 (codes "10.0.0.0/8") ≡ (
      is_routable_addr ip4 (codes "10.0.0.0/8") && not (is_private_addr ip4 (codes "10.0.0.0/8"))))
    × ((is_routable_addr ip4 (codes "10.0.0.0/8")
          && (is_localhost_addr ip4 (codes "10.0.0.0/8")
              || is_link_local_addr ip4 (codes "10.0.0.0/8")))
        ≡ false)
is_public_addr_lem_example = is_public_addr_lem ip4 (codes "10.0.0.0/8")

abbrev small : SimpleStatement
small = record { object = codes "Qobj"; refs = []; tags = []; deps = [] }

abbrev decoded : List (Result SimpleStatement)
decoded = ok small ∷ ok small ∷ ok small ∷ []

-- A service that can allocate a thousand statements.
abbrev requests : Requests
requests = record {
  matches = λ p t. true;
  atoi = λ t. ok (pos 2);
  can_make = λ n. ltb n 1000;
  print = λ n. [];
  partial_import = λ n. [];
}

grouped-AreGroups_example :
    (gs : List (List SimpleStatement)) × (grouped requests (pos 2) decoded ≡ ok gs)
    × (flatten gs ≡ small ∷ small ∷ small ∷ [])
    × AreGroups 2 gs
unfolding decode_all
grouped-AreGroups_example =
    grouped-AreGroups requests 2 decoded (small ∷ small ∷ small ∷ []) (omega arith) refl decodes
  where
    decodes : decode_all decoded ≡ ok (small ∷ small ∷ small ∷ [])
    decodes = refl

no_keys-IsCache : IsCache verifier []
unfolding lookup
no_keys-IsCache id58 pubk e = ground arith

do_import-by_each_example :
    ((do_import verifier (merge_batch sql coding) (pets ∷ more_pets ∷ []) [] no_tables).0
      ≡ by_each verifier
          (pets ∷ more_pets ∷ [])
          (merge_batch sql coding (pets ∷ more_pets ∷ []) no_tables)
          no_tables)
    × IsCache verifier
        (do_import verifier (merge_batch sql coding) (pets ∷ more_pets ∷ []) [] no_tables).1
do_import-by_each_example =
    do_import-by_each verifier (merge_batch sql coding) (pets ∷ more_pets ∷ []) [] no_tables
      no_keys-IsCache

-- A number is printed as a byte behind the colon in the order of bytes.
abbrev signer : Signer
signer = record {
  encoding = λ s. ok (header s).id;
  sign = λ bytes. ok bytes;
  show = λ n. (n + 59) ∷ [];
  show_time = λ t. [];
}

signer-IsPrinter : IsPrinter signer
signer-IsPrinter = record {
  show-inj = λ m n e. ground arith;
  show_plain = λ n. ground arith;
  show_time_plain = λ t. refl;
}

abbrev maker : Maker
maker = record { id58 = codes "P"; counter = 3; free = 10 }

abbrev publications : List (Publication × ℤ)
publications = (simple_statement small, pos 5) ∷ (simple_statement small, pos 6) ∷ []

abbrev accept_all : List Statement → ℕ → Result (Unit {0}) × ℕ
accept_all stmts n = (ok tt, n + length stmts)

abbrev published_ids : List Text
published_ids = (codes "P::" ++ (62 ∷ [])) ∷ (codes "P::" ++ (63 ∷ [])) ∷ []

publishes :
    (do_publish_batch signer accept_all (codes "images.pets") publications maker 0).0.0
    ≡ ok published_ids
unfolding do_publish_batch
publishes = refl

do_publish_batch-made_example :
    (stmts : List Statement) × ((accept_all stmts 0).0 ≡ ok tt)
    × (published_ids ≡ ids stmts)
    × Nodup published_ids
    × AllMade signer signer-IsPrinter (codes "images.pets") (codes "P") publications stmts
do_publish_batch-made_example =
    do_publish_batch-made signer signer-IsPrinter accept_all (codes "images.pets") publications
      maker 0 published_ids (omega arith) (omega arith) publishes
