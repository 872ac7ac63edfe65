-- ===== src/Tests/Merges.antt =====
-- A run of a merge of a stream that does not fail.
use concat.Base.{
  ℕ, ◌+◌, ◌≡◌, refl, Text, text_eq, text_dec, nat_eq, codes, true, some, List, [], ◌∷◌, Result, ok,
  length,
}
use concat.Base.Int.{pos}
use concat.Base.Dict.{Dict, lookup, put}
use concat.Query.Statement.{Statement, statement, header, simple}
use concat.Node.Database.{StreamValue, statement_value}
use concat.Node.Statements.{Verifier, check_statement, check_one}
use concat.Node.MergeStream.{
  Merging, goes, Handoff, taken, run_merge, merge_statement_keys, merge_simple,
}
use concat.Node.MergeStream.Rounds.{statements}
use concat.Node.MergeStream.Complete.{Runs, run_merge-Runs}

abbrev verifier : Verifier
verifier = record {
  marshal = λ s. ok (header s).id;
  b58_decode = λ id58. id58;
  unmarshal_key = λ bytes. ok bytes;
  verify = λ pubk bytes sig. ok true;
}

abbrev short : Statement
short =
    statement
      (record {
        addr = 1;
        body_addr = 2;
        id = codes "s";
        publisher = codes "P";
        namespace = codes "n";
        timestamp = pos 5;
        signature = some (codes "P");
      })
      (simple (record { object = codes "Q"; refs = []; tags = []; deps = [] }))

-- A database that counts its statements.
abbrev count_all : List Statement → ℕ → Result ℕ × ℕ
count_all stmts n = (ok (length stmts), n + length stmts)

abbrev taking : List (Dict Text Text) → Handoff
taking handed = taken

abbrev stream : List StreamValue
stream = statement_value short ∷ statement_value short ∷ []

abbrev last : Merging ℕ
last = record {
  received = 2;
  pkcache = (codes "P", codes "P") ∷ [];
  stmts = [];
  keys = [];
  handed = ((codes "Q", codes "Q") ∷ []) ∷ [];
  count = 2;
  ocount = 0;
  workers = 4;
  db = 5;
}

runs : run_merge verifier (λ key58. ok key58) taking count_all stream 4 3 ≡ goes last
unfolding run_merge check_statement check_one merge_statement_keys merge_simple lookup put text_dec
runs = refl

run_merge-Runs_example : Runs count_all 3 (statements stream) last.count last.db × (last.stmts ≡ [])
run_merge-Runs_example =
    run_merge-Runs verifier (λ key58. ok key58) taking count_all 3 stream 4 last runs
