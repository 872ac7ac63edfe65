-- ===== src/Node/Auth.antt =====
-- mcnode/node.go: the authorization of peers to push statements into namespaces.
pub mod Granted
pub mod Json
use concat.Base.{
  Text, text_eq, codes, ◌==◌, Bool, true, false, Option, none, some, List, [], ◌∷◌, Result, ok, err,
  panic, ◌>>=◌, has_prefix, has_suffix, drop_last_two, if◌then◌else◌,
}
use concat.Base.Dict.{Dict, lookup, put, remove}

-- PeerAuth, without its lock: the rules by peer ID.
abbrev pub PeerAuth : Type 0
PeerAuth = Dict Text (List Text)

-- The switch of authorizeAllow on one rule; `rule[:len(rule)-2]` panics where it is too short.
unfoldable pub rule_allows : Text → Text → Result Bool
rule_allows rule ns =
    if rule == codes "*"
    then ok true
    else if has_suffix rule (codes ".*")
    then (elim (drop_last_two rule) [ none ↦ panic | some pre ↦ ok (has_prefix ns pre) ])
    else ok (rule == ns)

unfoldable pub authorize_allow : List Text → Text → Result Bool
unfolding rule_allows
authorize_allow [] ns = ok false
authorize_allow (rule ∷ rules) ns = do
  allowed ← rule_allows rule ns
  if allowed then ok true else authorize_allow rules ns

-- `auth.peers[pid]`; a missing entry is the nil slice.
unfoldable pub get_rules : PeerAuth → Text → List Text
get_rules peers pid = elim (lookup peers pid) [ none ↦ [] | some rules ↦ rules ]

-- The loop of authorize.
unfoldable pub authorize_each : List Text → List Text → Result Bool
unfolding authorize_allow
authorize_each rules [] = ok true
authorize_each rules (ns ∷ nss) = do
  allowed ← authorize_allow rules ns
  if allowed then authorize_each rules nss else ok false

-- authorize behind its first test.
unfoldable pub authorize_rules : List Text → List Text → Result Bool
unfolding authorize_each
authorize_rules [] nss = ok false
authorize_rules (rule ∷ rules) nss = authorize_each (rule ∷ rules) nss

unfoldable pub authorize : PeerAuth → Text → List Text → Result Bool
unfolding authorize_rules get_rules
authorize peers pid [] = ok false
authorize peers pid (ns ∷ nss) = authorize_rules (get_rules peers pid) (ns ∷ nss)

unfoldable pub set_rules : PeerAuth → Text → List Text → PeerAuth
set_rules peers pid rules = put peers pid rules

unfoldable pub clear_rules : PeerAuth → Text → PeerAuth
clear_rules peers pid = remove peers pid
