-- ===== src/Node/Push.antt =====
-- mcnode/proto.go: pushHandler, which merges the statements that an authorized peer sends.
pub mod Authorized
use concat.Base.{
  ℕ, Text, text_eq, Bool, true, false, Option, none, some, List, [], ◌∷◌, map, Error, Result, ok,
  err, panic, bad_push, end_of_file, if◌then◌else◌, length, ltb, contains,
}
use concat.Base.Dict.{Dict}
use concat.Query.Statement.{Statement, header}
use concat.Node.Auth.{PeerAuth, authorize}
use concat.Node.Statements.{Verifier}
use concat.Node.Database.{StreamValue, statement_value}
use concat.Node.MergeStream.{
  Handoff, Merging, Round, goes, breaks, crashes, run_merge, MergeEnd, end_merge, merge_end,
}

-- What a read of a pb.PushValue gives: the oneof, or an error.
pub data PushMessage : Type 0 where
  stmt_message : Option Statement → PushMessage
  end_message : PushMessage
  unset_message : PushMessage
  unreadable_message : Error → PushMessage

-- The messages of the handler. The counts of PushEnd are int64 of Go's int.
pub data Reply : Type 0 where
  reject : Reply
  accept : Reply
  push_end : ℕ → ℕ → Option Error → Reply

-- The replies, the database, and whether the handler ended without a panic.
pub record Pushed (Db : Type 0) : Type 0 where
  pub replies : List Reply
  pub db : Db
  pub returned : Bool

-- The loop of pushHandler over the messages: the statements that it would pass on, and `err`. Past
-- the last message the read fails.
unfoldable pub forward : List Text → List PushMessage → List Statement × Option Error
forward nsfilter [] = ([], some end_of_file)
forward nsfilter (stmt_message none ∷ rest) = ([], some bad_push)
forward nsfilter (stmt_message (some stmt) ∷ rest) =
    let (stmts, e) = forward nsfilter rest in
    if contains nsfilter (header stmt).namespace then (stmt ∷ stmts, e) else ([], some bad_push)
forward nsfilter (end_message ∷ rest) = ([], none)
forward nsfilter (unset_message ∷ rest) = ([], some bad_push)
forward nsfilter (unreadable_message e ∷ rest) = ([], some e)

-- `err` where the loop has ended: a statement that the merge no longer receives ends the loop without
-- an error.
unfoldable pub loop_error : ℕ → List Statement → Option Error → Option Error
loop_error received stmts e = if ltb received (length stmts) then none else e

-- `if err == nil && mres.err != nil`
abbrev pub first_error : Option Error → Option Error → Option Error
first_error none merge_error = merge_error
first_error (some e) merge_error = some e

module _ {Db : Type 0} (vr : Verifier) (from_b58 : Text → Result Text)
    (handoff : List (Dict Text Text) → Handoff) (merge_batch : List Statement → Db → Result ℕ × Db)
    (results : ℕ → List (ℕ × Option Error)) (cpus : ℕ) where
  -- The last message, unless the merge has panicked.
  unfoldable pub finished : List Statement → Option Error → Round Db → Pushed Db
  unfolding loop_error
  finished stmts e (crashes m) = record { replies = accept ∷ []; db = m.db; returned = false }
  finished stmts e (goes m) =
      let done = end_merge results none m in
      record {
        replies =
            accept
            ∷ push_end done.scount done.objects
                (first_error (loop_error m.received stmts e) done.failed)
            ∷ [];
        db = m.db;
        returned = true;
      }
  finished stmts e (breaks x m) =
      let done = end_merge results (some x) m in
      record {
        replies =
            accept
            ∷ push_end done.scount done.objects
                (first_error (loop_error m.received stmts e) done.failed)
            ∷ [];
        db = m.db;
        returned = true;
      }

  -- The handler past the accept.
  unfoldable pub push_merge : List Text → List PushMessage → Db → Pushed Db
  unfolding finished forward
  push_merge nss messages db =
      let (stmts, e) = forward nss messages in
      finished stmts e
        (run_merge vr from_b58 handoff merge_batch (map statement_value stmts) cpus db)

  -- The handler past the authorization; `sent` says whether the accept was written.
  unfoldable pub push_authorized :
      Result Bool → Bool → List Text → List PushMessage → Db → Pushed Db
  unfolding push_merge
  push_authorized panic sent nss messages db = record { replies = []; db = db; returned = false }
  push_authorized (err e) sent nss messages db = record { replies = []; db = db; returned = true }
  push_authorized (ok false) sent nss messages db = record {
    replies = reject ∷ [];
    db = db;
    returned = true;
  }
  push_authorized (ok true) false nss messages db = record {
    replies = [];
    db = db;
    returned = true;
  }
  push_authorized (ok true) true nss messages db = push_merge nss messages db

  -- pushHandler, with the namespaces of the request or the error of its read.
  unfoldable pub push_handler :
      PeerAuth → Text → Result (List Text) → Bool → List PushMessage → Db → Pushed Db
  unfolding push_authorized
  push_handler auth pid (ok nss) sent messages db =
      push_authorized (authorize auth pid nss) sent nss messages db
  push_handler auth pid (err e) sent messages db = record { replies = []; db = db; returned = true }
  push_handler auth pid panic sent messages db = record { replies = []; db = db; returned = false }
