-- ===== src/Node/Api.antt =====
-- mcnode/api.go: the requests that publish statements, import them and set the status. The reading of
-- JSON, package regexp and strconv are parameters; a request's body is the list of what its decoder
-- gives, after which it is at its end.
pub mod Groups
use concat.Base.{
  ℕ, zero, suc, ◌+◌, Text, text_eq, codes, ◌==◌, Bool, true, false, ◌||◌, Option, none, some, List,
  [], ◌∷◌, ◌++◌, map, Error, Result, ok, err, panic, bad_namespace, bad_state, ◌>>=◌, if◌then◌else◌,
  length, ltb,
}
use concat.Base.Int.{ℤ, pos, negsuc}
use concat.Query.Statement.{SimpleStatement, Statement}
use concat.Node.Statements.{Publication, simple_statement, compound_statement, KeyCache}
use concat.Node.Network.{Hosts, Net, set_status, status_string}

-- What is written to the client.
pub data Response : Type 0 where
  lines : List Text → Response
  bad_request : Error → List Text → Response
  internal_error : Error → Response
  no_response : Response

pub record Requests : Type 0 where
  pub matches : Text → Text → Bool
  pub atoi : Text → Result ℤ
  pub can_make : ℕ → Bool
  pub print : ℕ → Text
  pub partial_import : ℕ → Text

abbrev pub namespace_pattern : Text
namespace_pattern = codes "^[a-zA-Z0-9-]+([.][a-zA-Z0-9-]+)*$"

-- The loop of httpPublish over its decoder.
unfoldable pub decode_all : List (Result SimpleStatement) → Result (List SimpleStatement)
decode_all [] = ok []
decode_all (r ∷ rest) = do sbody ← r; stmts ← decode_all rest; ok (sbody ∷ stmts)

-- The two loops of httpPublishCompound: with `clen - 1`, how many more statements the group takes
-- after the next one, the group and the groups before it.
unfoldable pub group_loop :
    ℕ
    → List (Result SimpleStatement)
    → ℕ
    → List SimpleStatement
    → List (List SimpleStatement)
    → Result (List SimpleStatement × List (List SimpleStatement))
group_loop last [] left body stmts = ok (body, stmts)
group_loop last (r ∷ rest) zero body stmts =
    r >>= λ sbody. group_loop last rest last [] (stmts ++ ((body ++ (sbody ∷ [])) ∷ []))
group_loop last (r ∷ rest) (suc left) body stmts =
    r >>= λ sbody. group_loop last rest left (body ++ (sbody ∷ [])) stmts

-- `if len(body) > 0`
abbrev pub with_rest :
    List SimpleStatement × List (List SimpleStatement) → List (List SimpleStatement)
with_rest ([], stmts) = stmts
with_rest (s ∷ body, stmts) = stmts ++ ((s ∷ body) ∷ [])

-- What follows the allocation of the first group, for the length `last + 1`.
unfoldable pub groups : ℕ → List (Result SimpleStatement) → Result (List (List SimpleStatement))
unfolding group_loop
groups last dec = group_loop last dec last [] [] >>= λ r. ok (with_rest r)

-- The groups that are published as compound statements: `1000/clen` panics for zero, and `make` for a
-- length below, or for one that it cannot give.
unfoldable pub grouped :
    Requests → ℤ → List (Result SimpleStatement) → Result (List (List SimpleStatement))
unfolding groups
grouped rq (negsuc n) dec = panic
grouped rq (pos zero) dec = panic
grouped rq (pos (suc last)) dec = if rq.can_make (suc last) then groups last dec else panic

module _ {Node : Type 0} (rq : Requests)
    (do_publish_batch : Text → List Publication → Node → Result (List Text) × Node) where
  -- The answer to a publication.
  abbrev pub published : Result (List Text) × Node → Response × Node
  published (ok sids, node) = (lines sids, node)
  published (err e, node) = (internal_error e, node)
  published (panic, node) = (no_response, node)

  -- What follows the decoding.
  unfoldable pub publish_decoded : Text → Result (List Publication) → Node → Response × Node
  publish_decoded ns panic node = (no_response, node)
  publish_decoded ns (err e) node = (bad_request e [], node)
  publish_decoded ns (ok []) node = (lines [], node)
  publish_decoded ns (ok (stmt ∷ stmts)) node = published (do_publish_batch ns (stmt ∷ stmts) node)

  unfoldable pub http_publish : Text → List (Result SimpleStatement) → Node → Response × Node
  unfolding publish_decoded decode_all
  http_publish ns dec node =
      if rq.matches namespace_pattern ns
      then publish_decoded ns (decode_all dec >>= λ stmts. ok (map simple_statement stmts)) node
      else (bad_request bad_namespace [], node)

  unfoldable pub publish_combined :
      Text → Result ℤ → List (Result SimpleStatement) → Node → Response × Node
  unfolding publish_decoded grouped
  publish_combined ns panic dec node = (no_response, node)
  publish_combined ns (err e) dec node = (bad_request e [], node)
  publish_combined ns (ok clen) dec node =
      publish_decoded ns (grouped rq clen dec >>= λ ss. ok (map compound_statement ss)) node

  unfoldable pub http_publish_compound :
      Text → Text → List (Result SimpleStatement) → Node → Response × Node
  unfolding publish_combined
  http_publish_compound ns comb dec node =
      if rq.matches namespace_pattern ns
      then publish_combined ns (rq.atoi comb) dec node
      else (bad_request bad_namespace [], node)

abbrev import_batch : ℕ
import_batch = 1024

module _ {Db : Type 0} (rq : Requests)
    (do_import : List Statement → KeyCache → Db → (Result ℕ × Db) × KeyCache) where
  -- `import_error`
  abbrev pub import_error : Error → ℕ → Response
  import_error e count = bad_request e (if ltb 0 count then rq.partial_import count ∷ [] else [])

  -- The merge of the last batch, and the answer.
  unfoldable pub import_last : List Statement → KeyCache → ℕ → Db → Response × Db
  import_last [] pkcache count db = (lines (rq.print count ∷ []), db)
  import_last (stmt ∷ stmts) pkcache count db =
      elim (do_import (stmt ∷ stmts) pkcache db).0.0 as (λ _. Response × Db) [
        | ok n ↦ (lines (rq.print (count + n) ∷ []), (do_import (stmt ∷ stmts) pkcache db).0.1)
        | err e ↦ (import_error e count, (do_import (stmt ∷ stmts) pkcache db).0.1)
        | panic ↦ (no_response, (do_import (stmt ∷ stmts) pkcache db).0.1)
      ]

  -- The loop of httpImport over its decoder.
  unfoldable pub import_loop :
      List (Result Statement) → List Statement → KeyCache → ℕ → Db → Response × Db
  unfolding import_last
  import_loop [] stmts pkcache count db = import_last stmts pkcache count db
  import_loop (panic ∷ rest) stmts pkcache count db = (no_response, db)
  import_loop (err e ∷ rest) stmts pkcache count db = (import_error e count, db)
  import_loop (ok stmt ∷ rest) stmts pkcache count db =
      let merged = do_import (stmts ++ (stmt ∷ [])) pkcache db in
      elim (ltb (length (stmts ++ (stmt ∷ []))) import_batch) as (λ _. Response × Db) [
        | true ↦ import_loop rest (stmts ++ (stmt ∷ [])) pkcache count db
        | false ↦ elim merged.0.0 as (λ _. Response × Db) [
          | ok n ↦ import_loop rest [] merged.1 (count + n) merged.0.1
          | err e ↦ (import_error e count, merged.0.1)
          | panic ↦ (no_response, merged.0.1)
        ]
      ]

  unfoldable pub http_import : List (Result Statement) → Db → Response × Db
  unfolding import_loop
  http_import dec db = import_loop dec [] [] 0 db

-- A known state.
abbrev pub is_state : Text → Bool
is_state state = state == codes "offline" || (state == codes "online" || state == codes "public")

module _ {Host : Type 0} (hosts : Hosts Host) where
  abbrev pub status_answer : Result (Unit {0}) × Net Host → Response × Net Host
  status_answer (ok u, node) = (lines (status_string hosts node.status ∷ []), node)
  status_answer (err e, node) = (internal_error e, node)
  status_answer (panic, node) = (no_response, node)

  -- httpStatusSet
  unfoldable pub http_status_set : Text → Net Host → Response × Net Host
  unfolding set_status
  http_status_set state node =
      if is_state state
      then status_answer (set_status hosts state node)
      else (bad_request bad_state [], node)
