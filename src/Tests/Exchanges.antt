-- ===== src/Tests/Exchanges.antt =====
-- Runs of a collection of objects and of exchanges between nodes.
use concat.Base.{
  no_rows, ◌*◌, ◌^◌, ◌≤◌, ℕ, ◌≡◌, refl, sym, ap, subst, Bool, true, false, not, ◌||◌, ◌&&◌, ◌==◌,
  Text, text_eq, text_dec, nat_eq, codes, Option, none, some, List, [], ◌∷◌, keep, Result, ok, err,
  primary_key_taken, arith, In, contains, contains-keep, ltb, length, any,
}
use concat.Base.Dict.{Dict, lookup, NodupKeys, Entries}
use concat.Query.Statement.{Statement, header}
use concat.Node.Status.{offline}
use concat.Node.Statements.{Verifier}
use concat.Node.Database.{statement_value, merge_batch}
use concat.Node.Database.Tables.{Content, Holds}
use concat.Node.Gc.{
  Context, RefsDb, Objects, Collected, add_keys, add_simple_keys, valid_key, do_gc,
}
use concat.Node.Gc.Keys.{uses}
use concat.Node.Gc.Table.{IsRefsDb, sql_db}
use concat.Node.Database.Stream.{RowSource, Driver, IsStored, RowsOf, select_all, query_stream}
use concat.Query.{Query}
use concat.Query.Compile.Rows.{SimpleRowSelector, Scanned, compile_query_row_selector, scan}
use concat.Query.Compile.{compile_query}
use concat.Query.Compile.Clauses.{compile_query_columns, compile_query_criteria}
use concat.Node.Gc.Exact.{IsObjects, do_gc-keeps, do_gc-exact}
use concat.Node.Merge.{Services, Merged, wanted, merge_data}
use concat.Node.Serve.{Peer}
use concat.Node.Serve.Complete.{Available, answered, merge_data-completes}
use concat.Node.MergeStream.{Handoff, taken, run_merge}
use concat.Node.MergeStream.Rounds.{state, statements, Accepted, Batches}
use concat.Node.MergeStream.Contents.{Grows, run_merge-Grows}
use concat.Node.Push.{PushMessage, stmt_message, end_message, push_handler}
use concat.Node.Push.Authorized.{Admitted, push_handler-Batches}
use concat.Tests.Nodes.{
  pets, more_pets, sql, view, sql-IsSql, coding, no_tables, no_content, no_tables-Holds,
}

-- A table of keys as a list, whose keys are distinct by the test before an insertion.
insert_absent : Bool → Text → List Text → Result (List Text)
insert_absent true key t = err primary_key_taken
insert_absent false key t = ok (key ∷ t)

count_of : Bool → ℕ
count_of true = 1
count_of false = 0

abbrev refs_db : RefsDb (List Text)
refs_db = record {
  opened = ok [];
  begin = λ t. none;
  commit = λ t. none;
  insert_key = λ key t. insert_absent (contains t key) key t;
  count_keys = λ key t. ok (count_of (contains t key));
}

insert_absent-ok :
    (b : Bool) (key : Text) (t t' : List Text) → insert_absent b key t ≡ ok t' → key ∷ t ≡ t'
unfolding insert_absent
insert_absent-ok true key t t' e = ground arith
insert_absent-ok false key t t' e = ground arith

insert_absent-taken :
    (b : Bool) (key : Text) (t : List Text)
    → insert_absent b key t ≡ err primary_key_taken
    → b ≡ true
unfolding insert_absent
insert_absent-taken true key t e = refl
insert_absent-taken false key t e = ground arith

counted_is : (b : Bool) → ltb 0 (count_of b) ≡ b
unfolding count_of
counted_is true = refl
counted_is false = refl

ok-inj : {A : Type 0} (a b : A) → ok a ≡ ok b → a ≡ b
ok-inj a b e = ground arith

or_comm : (a b : Bool) → (a || b) ≡ (b || a)
or_comm a b = ground arith

refs_db-IsRefsDb : IsRefsDb refs_db contains
refs_db-IsRefsDb = record {
  opened_empty = λ tx e k. ap (λ t. contains t k) (sym (ok-inj [] tx e));
  key_added = λ key tx tx' e k.
      subst (λ t. contains t k ≡ (contains tx k || k == key))
        (insert_absent-ok (contains tx key) key tx tx' e) (or_comm (k == key) (contains tx k));
  key_taken = λ key tx e. insert_absent-taken (contains tx key) key tx e;
  counted = λ key tx n e.
      subst (λ m. ltb 0 m ≡ contains tx key) (ok-inj (count_of (contains tx key)) n e)
        (counted_is (contains tx key));
}

-- A datastore as the list of its keys, which are their own text.
abbrev stored : Objects (List Text)
stored = record {
  iter_keys = λ s. ok s;
  delete = λ key s. ok (keep (λ k. not (k == key)) s);
  compact = λ s. s;
  b58_string = λ k. k;
}

stored-IsObjects : IsObjects stored contains
stored-IsObjects = record {
  listed = λ s ks e k. ap (λ t. contains t k) (sym (ok-inj s ks e));
  deleted = λ key s s' e k.
      subst (λ t. contains t k ≡ (contains s k && not (k == key)))
        (ok-inj (keep (λ k. not (k == key)) s) s' e) (contains-keep (λ k. not (k == key)) s k);
  kept = λ s k. refl;
}

abbrev database : List Statement
database = pets ∷ []

-- A row with the empty encoding of a statement.
empty_row : (srs : List SimpleRowSelector) → Result (Scanned srs)
empty_row [] = ok tt
empty_row (SimpleRowSelector.statement ∷ []) = ok ([], tt)
empty_row (sr ∷ srs) = err no_rows

abbrev row : RowSource
row srs = empty_row srs

abbrev driver : Driver
driver = record {
  query = λ text. ok (row ∷ []);
  unmarshal = λ raw. ok pets;
  message = λ e. codes "failed";
  show = λ n. [];
}

driver-IsStored : IsStored driver database
unfolding empty_row
driver-IsStored = record {
  selected = λ rows e. subst (RowsOf driver database) (ok-inj (row ∷ []) rows e) (refl, tt);
}

abbrev parse : Text → Result Query
parse text = ok select_all

abbrev request_context : Context
request_context = record { statements_left = none; keys_left = none }

abbrev object_keys : List Text
object_keys = codes "Qobj" ∷ codes "Qold" ∷ codes "Qdep" ∷ []

abbrev collected : Collected (List Text)
collected = record { count = 1; store = codes "Qobj" ∷ codes "Qdep" ∷ []; failed = none }

collects :
    do_gc refs_db stored offline request_context (sql_db parse driver) object_keys ≡ ok collected
unfolding do_gc insert_absent count_of text_dec add_keys add_simple_keys valid_key query_stream
    compile_query compile_query_columns compile_query_criteria compile_query_row_selector lookup
    scan empty_row
collects = refl

dep_used : any (uses (codes "Qdep")) database ≡ true
unfolding uses text_dec
dep_used = refl

do_gc-keeps_example : contains collected.store (codes "Qdep") ≡ contains object_keys (codes "Qdep")
do_gc-keeps_example =
    do_gc-keeps refs_db stored contains contains refs_db-IsRefsDb stored-IsObjects request_context
      parse driver database object_keys collected refl driver-IsStored (tt, tt) refl collects
      (codes "Qdep") dep_used

do_gc-exact_example :
    contains collected.store (codes "Qold")
    ≡ (contains object_keys (codes "Qold") && any (uses (codes "Qold")) database)
do_gc-exact_example =
    do_gc-exact refs_db stored contains contains refs_db-IsRefsDb stored-IsObjects request_context
      parse driver database object_keys collected refl driver-IsStored (tt, tt) refl refl collects
      refl (codes "Qold")

-- A store of objects, which a letter before them is the hash of; texts of keys are the keys.
abbrev fetching : Services (List Text)
fetching = record {
  has = λ key store. ok (contains store key);
  put = λ object store. ok ((b'Q' ∷ object) ∷ store);
  hash = λ object. b'Q' ∷ object;
  size = λ m. 9;
  write = λ keys58. none;
}

get_object : Text → Result (Option Text)
get_object [] = ok none
get_object (c ∷ object) = ok (some object)

object_of : Text → Text
object_of [] = []
object_of (c ∷ object) = object

abbrev full_peer : Peer
full_peer = record {
  from_b58 = λ key58. ok key58;
  get = get_object;
  message = λ e. codes "failed";
  request_size = λ keys58. length keys58;
}

abbrev two_keys : Dict Text Text
two_keys = (codes "Qobj", codes "Qobj") ∷ (codes "Qdep", codes "Qdep") ∷ []

two_keys-NodupKeys : NodupKeys two_keys
unfolding lookup text_dec
two_keys-NodupKeys = (refl, (refl, tt))

two_keys-Available : Entries (Available fetching full_peer object_of) two_keys
unfolding get_object object_of
two_keys-Available = ((refl, refl, refl, omega arith), ((refl, refl, refl, omega arith), tt))

merge_data-completes_example :
    (d : Merged (List Text)) × (merge_data fetching
        (answered fetching full_peer object_of (wanted fetching two_keys (codes "Qdep" ∷ [])) 5)
        two_keys
        (codes "Qdep" ∷ [])
      ≡ ok d)
    × (d.failure ≡ none)
    × ((ks : List Text) × (wanted fetching two_keys (codes "Qdep" ∷ []) ≡ ok ks)
        × (d.count ≡ length ks))
unfolding wanted text_dec
merge_data-completes_example =
    merge_data-completes fetching full_peer object_of two_keys (codes "Qdep" ∷ []) 5
      two_keys-NodupKeys two_keys-Available (λ k s. (contains s k, refl))
      (λ o s. ((b'Q' ∷ o) ∷ s, refl)) (λ ks. refl) (omega arith)
      (λ ks e. subst (λ l. length l ≤ 2 * 2 ^ 20) (ok-inj (codes "Qobj" ∷ []) ks e) (omega arith))
      (omega arith)

pub verify_text : Text → Text → Option Text → Result Bool
verify_text pubk bytes none = ok false
verify_text pubk bytes (some sig) = ok (sig == pubk)

abbrev pub verifier : Verifier
verifier = record {
  marshal = λ s. ok (header s).id;
  b58_decode = λ id58. id58;
  unmarshal_key = λ bytes. ok bytes;
  verify = verify_text;
}

abbrev taking : List (Dict Text Text) → Handoff
taking handed = taken

run_merge-Grows_example :
    (m' : Content) × Holds coding
      (view
        (state (
          run_merge verifier
            (λ key58. ok key58)
            taking
            (merge_batch sql coding)
            (statement_value pets ∷ statement_value more_pets ∷ [])
            4
            no_tables)).db)
      m'
    × Grows
        (λ s.
          Accepted verifier s
          × In s (statements (statement_value pets ∷ statement_value more_pets ∷ [])))
        no_content
        m'
run_merge-Grows_example =
    run_merge-Grows sql coding view sql-IsSql verifier (λ key58. ok key58) taking
      (statement_value pets ∷ statement_value more_pets ∷ []) 4 no_tables no_content no_tables-Holds

abbrev messages : List PushMessage
messages = stmt_message (some pets) ∷ stmt_message (some more_pets) ∷ end_message ∷ []

abbrev granted : Dict Text (List Text)
granted = (codes "bob", codes "images.*" ∷ []) ∷ []

push_handler-Batches_example :
    Batches
      (merge_batch sql coding)
      (Admitted verifier
        (λ key58. ok key58)
        taking
        (merge_batch sql coding)
        (λ n. [])
        4
        granted
        (codes "bob"))
      no_tables
      (push_handler verifier
        (λ key58. ok key58)
        taking
        (merge_batch sql coding)
        (λ n. [])
        4
        granted
        (codes "bob")
        (ok (codes "images.pets" ∷ []))
        true
        messages
        no_tables).db
push_handler-Batches_example =
    push_handler-Batches verifier (λ key58. ok key58) taking (merge_batch sql coding) (λ n. []) 4
      granted (codes "bob") (ok (codes "images.pets" ∷ [])) true messages no_tables
