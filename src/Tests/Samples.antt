-- ===== src/Tests/Samples.antt =====
-- The statements and queries of the runs.
use concat.Base.{ℕ, String, codes, none, some, List, [], ◌∷◌}
use concat.Base.Int.{pos}
use concat.Query.{select, delete, QuerySelector, QueryCriteria, Query}
use concat.Query.Statement.{
  SimpleStatement, Statement, statement, StatementBody, simple, compound, envelope, end, next,
}

abbrev pub photo : SimpleStatement
photo = record {
  object = codes "QmPhoto";
  refs = codes "wiki:cat" ∷ codes "wiki:dog" ∷ [];
  tags = [];
  deps = codes "QmSchema" ∷ [];
}

abbrev pub drawing : SimpleStatement
drawing = record { object = codes "QmDrawing"; refs = codes "wiki:cat" ∷ []; tags = []; deps = [] }

abbrev pub stated : ℕ → String → String → ℕ → StatementBody → Statement
stated addr id namespace time b =
    statement
      (record {
        addr = addr;
        body_addr = addr;
        id = codes id;
        publisher = codes "Alice";
        namespace = codes namespace;
        timestamp = pos time;
        signature = some (codes "sig");
      })
      b

abbrev pub first : Statement
first = stated 1 "s1" "images.pets" 10 (simple photo)

abbrev pub second : Statement
second = stated 2 "s2" "images.art" 30 (compound (photo ∷ drawing ∷ []))

abbrev pub third : Statement
third = stated 3 "s3" "images.pets" 20 (envelope (next first (next second end)))

abbrev pub fourth : Statement
fourth = stated 4 "s4" "texts" 40 (simple drawing)

abbrev pub statements : List Statement
statements = first ∷ second ∷ third ∷ fourth ∷ []

-- WHERE wki = wiki:cat AND NOT (timestamp > 25 OR id = s9)
abbrev pub cats : QueryCriteria
cats = QueryCriteria.compound (codes "AND") (QueryCriteria.index (codes "wki") (codes "wiki:cat")) (
    QueryCriteria.negated (
      QueryCriteria.compound (codes "OR")
        (QueryCriteria.range (codes ">") (codes "timestamp") (pos 25))
        (QueryCriteria.value (codes "=") (codes "id") (codes "s9"))))

-- FROM images.* with a selector and a limit
abbrev pub images : QuerySelector → ℕ → Query
images sel limit = record {
  op = select;
  namespace = codes "images.*";
  selector = some sel;
  criteria = some cats;
  order = some (record { sel = codes "timestamp"; dir = codes "DESC" } ∷ []);
  limit = pos limit;
}

abbrev pub function_of : String → String → QuerySelector
function_of op sel = QuerySelector.function (record { op = codes op; sel = codes sel })

-- DELETE FROM images.*
abbrev pub purge : Query
purge = record {
  op = delete;
  namespace = codes "images.*";
  selector = some (QuerySelector.simple (codes "id"));
  criteria = some cats;
  order = none;
  limit = pos 3;
}

-- SELECT * FROM * WHERE NOT id = s1
abbrev pub by_id : Query
by_id = record {
  op = select;
  namespace = codes "*";
  selector = some (QuerySelector.simple (codes "*"));
  criteria =
      some (QueryCriteria.negated (QueryCriteria.value (codes "=") (codes "id") (codes "s1")));
  order = none;
  limit = pos 0;
}
