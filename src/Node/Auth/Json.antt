-- ===== src/Node/Auth/Json.antt =====
-- mcnode/node.go: the rules of peers in the configuration, fromJSON and toJSON of PeerAuth.
use concat.Base.{
  ◌≢◌, Bool, true, All, text_dec, arith, >>=-eq-ok, ◌>>=◌, ◌≡◌, refl, sym, ap, subst, ◌∙◌, Text,
  text_eq, Option, none, some, List, [], ◌∷◌, ◌++◌, append_assoc, append-nil, map, Result, ok, err,
  panic, bad_ruleset,
}
use concat.Base.Dict.{Dict, lookup, put, put_new, NodupKeys, NodupKeys-append}
use concat.Mc.Message.{Codec, IsLawful}
use concat.Node.Auth.{PeerAuth}

-- What encoding/json decodes an element of an array to, and a member of an object.
pub data Item : Type 0 where
  text_item : Text → Item
  other_item : Item

pub data Member : Type 0 where
  array : List Item → Member
  no_array : Member

-- The loop over the rules of a peer: `none` for an element that is no string.
unfoldable pub rules_of : List Item → Option (List Text)
rules_of [] = some []
rules_of (text_item rule ∷ items) = elim (rules_of items) [
  | none ↦ none
  | some rules ↦ some (rule ∷ rules)
]
rules_of (other_item ∷ items) = none

module _ (c : Codec) where
  -- The loop of fromJSON: the rules that were read, and how it ends.
  unfoldable pub from_loop : Dict Text Member → PeerAuth → PeerAuth × Result (Unit {0})
  from_loop [] peers = (peers, ok tt)
  from_loop ((id58, no_array) ∷ rmap) peers = elim (c.decode_id id58) [
    | ok pid ↦ (peers, err bad_ruleset)
    | err e ↦ (peers, err e)
    | panic ↦ (peers, panic)
  ]
  from_loop ((id58, array items) ∷ rmap) peers = elim (c.decode_id id58) [
    | err e ↦ (peers, err e)
    | panic ↦ (peers, panic)
    | ok pid ↦ elim (rules_of items) [
      | none ↦ (peers, err bad_ruleset)
      | some rules ↦ from_loop rmap (put peers pid rules)
    ]
  ]

  -- The rules from before are dropped.
  unfoldable pub from_json : Dict Text Member → PeerAuth → PeerAuth × Result (Unit {0})
  unfolding from_loop
  from_json rmap peers = from_loop rmap []

  unfoldable pub to_json : PeerAuth → Dict Text (List Text)
  to_json [] = []
  to_json ((pid, rules) ∷ peers) = (c.pretty pid, rules) ∷ to_json peers

-- Package encoding/json, for an object of arrays of strings: its encoding, and the decoding of an
-- object. `valid` is utf8.ValidString: another string is encoded with its invalid bytes replaced.
pub record Json (Document : Type 0) : Type 0 where
  pub valid : Text → Bool
  pub marshal : Dict Text (List Text) → Result Document
  pub unmarshal : Document → Result (Dict Text Member)

-- An object of arrays of strings.
abbrev pub members : Dict Text (List Text) → Dict Text Member
members [] = []
members ((id58, rules) ∷ rmap) = (id58, array (map text_item rules)) ∷ members rmap

abbrev pub IsValidRules : {Document : Type 0} → Json Document → List Text → Type 0
IsValidRules js rules = All (λ rule. js.valid rule ≡ true) rules

-- Every name and every string of an object is valid UTF-8.
abbrev pub IsValidObject : {Document : Type 0} → Json Document → Dict Text (List Text) → Type 0
IsValidObject js [] = Unit
IsValidObject js ((id58, rules) ∷ rmap) =
    (js.valid id58 ≡ true) × IsValidRules js rules × IsValidObject js rmap

-- An object of valid texts with distinct names is read back from its encoding.
pub record IsJson {Document : Type 0} (js : Json Document) : Type 0 where
  pub read_back :
      (rmap : Dict Text (List Text))
      → NodupKeys rmap
      → IsValidObject js rmap
      → (js.marshal rmap >>= js.unmarshal) ≡ ok (members rmap)

rules_of-map : (rules : List Text) → rules_of (map text_item rules) ≡ some rules
unfolding rules_of
rules_of-map [] = refl
rules_of-map (rule ∷ rules) = rw (rules_of, rules_of-map rules) refl

ok_inj : {A : Type 0} (a b : A) → ok a ≡ ok b → a ≡ b
ok_inj a b e = ground arith

module _ (c : Codec) (law : IsLawful c) where
  from_loop-to_json :
      (peers acc : PeerAuth)
      → NodupKeys (acc ++ peers)
      → from_loop c (members (to_json c peers)) acc ≡ (acc ++ peers, ok tt)
  unfolding from_loop to_json
  from_loop-to_json [] acc u = ap (λ p. (p, ok tt)) (sym (append-nil acc))
  from_loop-to_json ((pid, rules) ∷ peers) acc u =
      let fresh = put_new acc pid rules (NodupKeys-append acc pid rules peers u) in
      let shape : (acc ++ ((pid, rules) ∷ [])) ++ peers ≡ acc ++ ((pid, rules) ∷ peers) =
        append_assoc acc ((pid, rules) ∷ []) peers in
      rw (from_loop, law.decode_id-pretty pid, rules_of-map rules, fresh)
        (from_loop-to_json peers (acc ++ ((pid, rules) ∷ [])) (subst NodupKeys (sym shape) u)
          ∙ ap (λ p. (p, ok tt)) shape)

  -- The rules of every peer are valid UTF-8.
  abbrev pub AllValid : {Document : Type 0} → Json Document → PeerAuth → Type 0
  AllValid js [] = Unit
  AllValid js ((pid, rules) ∷ peers) = IsValidRules js rules × AllValid js peers

  to_json-IsValidObject :
      {Document : Type 0} (js : Json Document) (peers : PeerAuth)
      → ((pid : Text) → js.valid (c.pretty pid) ≡ true)
      → AllValid js peers
      → IsValidObject js (to_json c peers)
  unfolding to_json
  to_json-IsValidObject js [] plain a = tt
  to_json-IsValidObject js ((pid, rules) ∷ peers) plain (r, a) =
      (plain pid, r, to_json-IsValidObject js peers plain a)

  -- The text of an identity that has no entry names none.
  lookup-to_json :
      (peers : PeerAuth) (pid : Text)
      → lookup peers pid ≡ none
      → lookup (to_json c peers) (c.pretty pid) ≡ none
  unfolding to_json lookup
  lookup-to_json [] pid absent = refl
  lookup-to_json ((j, rules) ∷ peers) pid absent = elim (text_dec pid j) [
    | yes same ↦ ground (arith, absent)
    | no other ↦
        let apart : c.pretty pid ≢ c.pretty j = λ e. other (
          ok_inj pid j
            (sym (law.decode_id-pretty pid) ∙ ap c.decode_id e ∙ law.decode_id-pretty j)) in
        ground (arith, absent, lookup-to_json peers pid (ground (arith, absent)), apart)
  ]

  to_json-NodupKeys : (peers : PeerAuth) → NodupKeys peers → NodupKeys (to_json c peers)
  unfolding to_json
  to_json-NodupKeys [] u = tt
  to_json-NodupKeys ((pid, rules) ∷ peers) (fresh, u) =
      (lookup-to_json peers pid fresh, to_json-NodupKeys peers u)

  -- The rules of a configuration, encoded as JSON, decoded and read.
  abbrev pub reloaded :
      {Document : Type 0}
      → Json Document
      → PeerAuth
      → PeerAuth
      → Result (PeerAuth × Result (Unit {0}))
  reloaded js peers old = do
    bytes ← js.marshal (to_json c peers)
    rmap ← js.unmarshal bytes
    ok (from_json c rmap old)

  -- Rules that are written to the configuration as JSON and read again are the same, whatever rules
  -- the reader had, where every rule and every text of an identity is valid UTF-8; no peer has two
  -- entries, and identities are read back from their texts.
  pub from_json-to_json :
      {Document : Type 0} (js : Json Document) (peers old : PeerAuth)
      → IsJson js
      → ((pid : Text) → js.valid (c.pretty pid) ≡ true)
      → AllValid js peers
      → NodupKeys peers
      → reloaded js peers old ≡ ok (peers, ok tt)
  unfolding from_json
  from_json-to_json js peers old is plain a u =
      let (bytes, made, back) = >>=-eq-ok (js.marshal (to_json c peers)) _ (
        is.read_back (to_json c peers) (to_json-NodupKeys peers u)
          (to_json-IsValidObject js peers plain a)) in
      rw (made, back) (ap ok (from_loop-to_json peers [] u))
