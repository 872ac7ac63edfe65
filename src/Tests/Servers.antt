-- ===== src/Tests/Servers.antt =====
-- Runs of the directory, the node's authorization and the messages.
use concat.Base.{
  true, err, unknown_peer, bad_response, length, ℕ, ◌≡◌, ◌≢◌, refl, Bool, false, ◌==◌, Text,
  text_eq, text_dec, codes, Option, none, some, List, [], ◌∷◌, Result, ok, ◌>>=◌, arith, In,
  contains, All, if◌then◌else◌,
}
use concat.Base.Int.{pos}
use concat.Base.Dict.{Dict, lookup, remove, unless, NodupKeys}
use concat.Query.Filter.Namespace.{Pattern, family, pattern_text}
use concat.Query.Selector.{int, string}
use concat.Query.ResultSet.{Value, object}
use concat.Mc.Message.{
  PeerInfo, Codec, IsLawful, pb_from_peer_info, pb_to_peer_info, result_value, value_of,
}
use concat.Mc.Message.Laws.{widen_value, pb_to_peer_info-pb_from_peer_info, value_of-result_value}
use concat.Directory.Types.{PublisherInfo, Peers, Manifest}
use concat.Directory.Peers.{register_peer, unregister_peer, list_peers}
use concat.Directory.Peers.Listing.{Listed, list_peers-Listed}
use concat.Directory.Serve.{Arrival, found, failed, lookup_loop}
use concat.Directory.Serve.Lookup.{ask, ask-register_peer}
use concat.Directory.Serve.Resolve.{first_found, all_failed, resolved, lookup_loop-resolved}
use concat.Directory.Manifests.{Services, new_manifest_store, put_all}
use concat.Directory.Manifests.Verified.{IsSound, put_all-IsSound}
use concat.Directory.Handler.{
  RegisterPeer, Directory, new_directory, register_handler, Event, request, closed, handle_events,
}
use concat.Directory.Handler.Invariant.{IsWell, handle_events-IsWell}
use concat.Directory.Handler.Session.{register_handler-leaves}
use concat.Node.Auth.Json.{Json, IsJson, members, reloaded, from_json-to_json}
use concat.Node.Auth.{PeerAuth, authorize, get_rules}
use concat.Node.Merge.{Message, data_object, end, Merged, wanted, receive, merge_data}
use concat.Node.Merge.Stored.{Puts, Enough, merge_data-Outcome}
use concat.Node.Auth.Granted.{Answers, Some, authorize-Answers}

-- Identities are printed with a letter before them.
decode : Text → Result Text
decode [] = ok []
decode (c ∷ s) = ok s

abbrev plain : Codec
plain = record {
  pretty = λ id. b'Q' ∷ id;
  decode_id = decode;
  addr_bytes = λ addr. b'/' ∷ addr;
  decode_addr = decode;
}

plain-IsLawful : IsLawful plain
unfolding decode
plain-IsLawful = record { decode_id-pretty = λ id. refl; decode_addr-addr_bytes = λ addr. refl }

-- A signature is the key of the entity.
verify_text : Text → Text → Option Text → Result Bool
verify_text pubk bytes none = ok false
verify_text pubk bytes (some sig) = ok (sig == pubk)

abbrev services : Services
services = record {
  marshal = λ mf. ok mf.body;
  hash = λ bytes. b'#' ∷ bytes;
  lookup_entity_key = λ entity key_id. ok entity;
  verify = verify_text;
}

abbrev bob : PeerInfo
bob = record { id = codes "bob"; addrs = codes "ip4" ∷ [] }

abbrev carol : PeerInfo
carol = record { id = codes "carol"; addrs = [] }

abbrev manifest : Manifest
manifest = record {
  entity = codes "museum";
  key_id = codes "k";
  body = codes "body";
  timestamp = pos 5;
  signature = some (codes "museum");
}

abbrev publisher : PublisherInfo
publisher = record { id = codes "P"; namespaces = codes "images.pets" ∷ codes "texts" ∷ [] }

abbrev registration : PeerInfo → RegisterPeer
registration peer = record {
  info = some (pb_from_peer_info plain peer);
  publisher = some publisher;
  manifest = manifest ∷ [];
}

abbrev peers : Peers
peers =
    (codes "bob", record { peer = bob; publisher = some publisher })
    ∷ (codes "carol", record { peer = carol; publisher = none })
    ∷ []

peers-NodupKeys : NodupKeys peers
unfolding lookup text_dec
peers-NodupKeys = (refl, (refl, tt))

new_manifest_store-IsSound : IsSound services new_manifest_store
unfolding lookup
new_manifest_store-IsSound = record {
  proven = λ mfh mfr e. ground arith;
  cached = λ name pubk e. ground arith;
  nodup = tt;
}

new_directory-IsWell : IsWell plain services new_directory
unfolding lookup
new_directory-IsWell = record {
  honest = record { own = λ pid rec e. ground arith; nodup = tt };
  sound = new_manifest_store-IsSound;
}

abbrev events : List (Event plain services)
events =
    request (codes "bob") (registration bob)
    ∷ request (codes "carol") (registration bob)
    ∷ request (codes "carol") (registration carol)
    ∷ closed (codes "bob")
    ∷ []

handle_events-IsWell_example :
    IsWell plain services (handle_events plain services events new_directory)
handle_events-IsWell_example =
    handle_events-IsWell plain services events new_directory new_directory-IsWell

abbrev before : Directory
before =
    handle_events plain services (request (codes "carol") (registration carol) ∷ []) new_directory

register_handler-leaves_example :
    ((j : Text)
      → lookup
          (register_handler plain services (codes "bob") (registration bob ∷ []) before).peers
          j
        ≡ (if j == codes "bob" then none else lookup before.peers j))
    × ((h : Text)
        → lookup
            (register_handler plain services (codes "bob") (registration bob ∷ []) before).mfs.mf
            h
          ≡ unless (λ r. r.src == codes "bob") (lookup before.mfs.mf h))
register_handler-leaves_example =
    register_handler-leaves plain services (codes "bob") before (registration bob ∷ []) (
      handle_events-IsWell plain services (request (codes "carol") (registration carol) ∷ [])
        new_directory new_directory-IsWell)

put_all-IsSound_example :
    IsSound services (put_all services (codes "bob") (manifest ∷ manifest ∷ []) new_manifest_store)
put_all-IsSound_example =
    put_all-IsSound services (codes "bob") (manifest ∷ manifest ∷ []) new_manifest_store
      new_manifest_store-IsSound

abbrev pets : Pattern
pets = family (codes "images")

list_peers-Listed_example :
    (l : List Text) × (list_peers (λ id. id) (pattern_text pets) peers ≡ ok l)
    × ((x : Text) → In x l → Listed (λ id. id) pets peers x)
    × ((x : Text) → Listed (λ id. id) pets peers x → In x l)
list_peers-Listed_example = list_peers-Listed (λ id. id) pets peers tt peers-NodupKeys

ask-register_peer_example :
    (ask plain plain-IsLawful
        (register_peer (record { peer = carol; publisher = none }) peers)
        (codes "carol")
      ≡ (if codes "carol" == codes "carol"
          then ok carol
          else ask plain plain-IsLawful peers (codes "carol")))
    × (ask plain plain-IsLawful (unregister_peer (codes "bob") peers) (codes "carol") ≡ (
        if codes "carol" == codes "bob"
        then err unknown_peer
        else ask plain plain-IsLawful peers (codes "carol")))
ask-register_peer_example =
    ask-register_peer plain plain-IsLawful peers (record { peer = carol; publisher = none })
      (codes "bob") (codes "carol")

abbrev arrivals : List Arrival
arrivals = failed unknown_peer ∷ failed bad_response ∷ found bob ∷ []

lookup_loop-resolved_example :
    lookup_loop (length arrivals) arrivals 0 ≡ resolved (first_found arrivals) (all_failed arrivals)
lookup_loop-resolved_example = lookup_loop-resolved arrivals

abbrev rules : PeerAuth
rules = (codes "bob", codes "texts" ∷ codes "images.*" ∷ []) ∷ []

abbrev requested : List Text
requested = codes "images.pets" ∷ codes "texts" ∷ []

authorize-Answers_example :
    Answers
      (authorize rules (codes "bob") requested)
      ((requested ≢ []) × All (Some (get_rules rules (codes "bob"))) requested)
authorize-Answers_example = authorize-Answers rules (codes "bob") requested

pb_to_peer_info-pb_from_peer_info_example :
    pb_to_peer_info plain (pb_from_peer_info plain bob) ≡ ok bob
pb_to_peer_info-pb_from_peer_info_example =
    pb_to_peer_info-pb_from_peer_info plain plain-IsLawful bob

abbrev row : Value
row = object ((codes "id", string (codes "s1")) ∷ (codes "counter", int (pos 0)) ∷ [])

value_of-result_value_example : (result_value row >>= value_of) ≡ ok (widen_value row)
unfolding lookup text_dec
value_of-result_value_example = value_of-result_value row (refl, (refl, tt))

-- A datastore of the hashes of its objects.
put_object : Text → List Text → Result (List Text)
put_object bytes store = ok ((b'#' ∷ bytes) ∷ store)

abbrev objects : concat.Node.Merge.Services (List Text)
objects = record {
  has = λ key store. ok (contains store key);
  put = put_object;
  hash = λ bytes. b'#' ∷ bytes;
  write = λ keys58. none;
  size = λ m. 9;
}

abbrev messages : List Message
messages = data_object (codes "Qm1") (codes "cat") ∷ end ∷ []

abbrev asked : Dict Text Text
asked = (codes "Qm1", codes "#cat") ∷ (codes "Qm2", codes "#dog") ∷ []

abbrev merged : Merged (List Text)
merged = record { count = 1; store = codes "#cat" ∷ codes "#dog" ∷ []; failure = none }

merge_data-merged : merge_data objects messages asked (codes "#dog" ∷ []) ≡ ok merged
unfolding merge_data receive put_object lookup remove text_dec
merge_data-merged = refl

merge_data-Outcome_example :
    ((n : ℕ) × Puts objects asked (codes "#dog" ∷ []) n merged.store × (merged.count ≡ n))
    × Enough objects (wanted objects asked (codes "#dog" ∷ [])) merged
merge_data-Outcome_example =
    merge_data-Outcome objects messages asked (codes "#dog" ∷ []) merged merge_data-merged

rules-NodupKeys : NodupKeys rules
unfolding lookup
rules-NodupKeys = (refl, tt)

-- Documents that are the objects they are of.
abbrev json : Json (Dict Text (List Text))
json = record {
  valid = λ t. true;
  marshal = λ rmap. ok rmap;
  unmarshal = λ rmap. ok (members rmap);
}

json-IsJson : IsJson json
json-IsJson = record { read_back = λ rmap u v. refl }

from_json-to_json_example :
    reloaded plain plain-IsLawful json rules ((codes "carol", codes "*" ∷ []) ∷ [])
    ≡ ok (rules, ok tt)
from_json-to_json_example =
    from_json-to_json plain plain-IsLawful json rules ((codes "carol", codes "*" ∷ []) ∷ [])
      json-IsJson (λ pid. refl) ((refl, (refl, tt)), tt) rules-NodupKeys
