-- ===== src/Tests/Nodes.antt =====
-- Runs of the node's database, its collection of objects, its merges and its publications.
use concat.Base.{
  ◌≡◌, ◌≢◌, refl, sym, Text, text_eq, nat_eq, codes, Option, none, some, List, [], ◌∷◌, ◌++◌,
  Result, ok, err, primary_key_taken, no_rows, unknown_statement, arith,
}
use concat.Base.Int.{pos}
use concat.Query.{Query, delete}
use concat.Query.Statement.{Statement, statement, simple, header}
use concat.Node.Database.{
  Sql, Coding, StreamValue, string_value, merge_batch, put_batch, delete_matching,
}
use concat.Node.Database.Tables.{Tables, with_data, with_envelope, with_refs, IsSql, Content, Holds}
use concat.Node.Database.Contents.{Ends, Merged, merge_batch-Merged, PutDone, put_batch-PutDone}
use concat.Node.Database.Lookups.{DeleteDone, delete_matching-DeleteDone}

-- A statement is encoded as its identifier, which decodes as the statement `pets` alone.
abbrev pub shop : Text → Text → Statement
shop id object =
    statement
      (record {
        addr = 1;
        body_addr = 2;
        id = id;
        publisher = codes "P";
        namespace = codes "images.pets";
        timestamp = pos 5;
        signature = some (codes "P");
      })
      (simple
        (record { object = object; refs = codes "wki" ∷ []; tags = []; deps = codes "Qdep" ∷ [] }))

abbrev pub pets : Statement
pets = shop (codes "s1") (codes "Qobj")

abbrev pub more_pets : Statement
more_pets = shop (codes "s2") (codes "Qother")

-- A table accepts a new key.
pub insert_new : Option Text → Text → Text → Tables → Result Tables
insert_new none id bytes t = ok (with_data t id (some bytes))
insert_new (some x) id bytes t = err primary_key_taken

pub select_data : Option Text → Result Text
select_data none = err no_rows
select_data (some bytes) = ok bytes

abbrev pub sql : Sql Tables
sql = record {
  begin = λ t. none;
  commit = λ t. none;
  insert_stmt_data = λ id bytes t. insert_new (t.data_of id) id bytes t;
  insert_stmt_envelope = λ row t. ok (with_envelope t row.id (some row));
  insert_stmt_refs = λ id wki t. ok (with_refs t id (t.refs_of id ++ (wki ∷ [])));
  select_stmt_data = λ id t. select_data (t.data_of id);
  delete_stmt_data = λ id t. ok (with_data t id none);
  delete_stmt_envelope = λ id t. ok (with_envelope t id none);
  delete_stmt_refs = λ id t. ok (with_refs t id []);
}

abbrev pub view : Tables → Tables
view t = t

ok-inj : {A : Type 0} (a b : A) → ok a ≡ ok b → a ≡ b
ok-inj a b e = ground arith

insert_new-ok :
    (o : Option Text) (id bytes : Text) (t t' : Tables)
    → insert_new o id bytes t ≡ ok t'
    → (o ≡ none) × (t' ≡ with_data t id (some bytes))
unfolding insert_new
insert_new-ok none id bytes t t' e = (refl, sym (ok-inj _ _ e))
insert_new-ok (some x) id bytes t t' e = ground arith

insert_new-taken :
    (o : Option Text) (id bytes : Text) (t : Tables)
    → insert_new o id bytes t ≡ err primary_key_taken
    → o ≢ none
unfolding insert_new
insert_new-taken none id bytes t e n = ground arith
insert_new-taken (some x) id bytes t e n = ground arith

select_data-ok : (o : Option Text) (bytes : Text) → select_data o ≡ ok bytes → o ≡ some bytes
unfolding select_data
select_data-ok none bytes e = ground arith
select_data-ok (some x) bytes e = ground arith

select_data-missing : (o : Option Text) → select_data o ≡ err no_rows → o ≡ none
unfolding select_data
select_data-missing none e = refl
select_data-missing (some x) e = ground arith

select_data-known : (o : Option Text) → select_data o ≢ err unknown_statement
unfolding select_data
select_data-known none e = ground arith
select_data-known (some x) e = ground arith

pub sql-IsSql : IsSql sql view
sql-IsSql = record {
  data_inserted = λ id bytes tx tx' e. insert_new-ok (tx.data_of id) id bytes tx tx' e;
  data_taken = λ id bytes tx e. insert_new-taken (tx.data_of id) id bytes tx e;
  envelope_inserted = λ row tx tx' e. sym (ok-inj _ _ e);
  refs_inserted = λ id wki tx tx' e. sym (ok-inj _ _ e);
  data_selected = λ id bytes tx e. select_data-ok (tx.data_of id) bytes e;
  data_missing = λ id tx e. select_data-missing (tx.data_of id) e;
  select_failed = λ id tx e. select_data-known (tx.data_of id) e;
  data_deleted = λ id tx tx' e. sym (ok-inj _ _ e);
  envelope_deleted = λ id tx tx' e. sym (ok-inj _ _ e);
  refs_deleted = λ id tx tx' e. sym (ok-inj _ _ e);
}

abbrev pub coding : Coding
coding = record {
  marshal = λ s. ok (header s).id;
  unmarshal = λ bytes. ok (shop bytes (codes "Qobj"));
}

abbrev pub no_tables : Tables
no_tables = record { data_of = λ id. none; envelope_of = λ id. none; refs_of = λ id. [] }

abbrev pub no_content : Content
no_content id = none

pub no_tables-Holds : Holds coding (view no_tables) no_content
no_tables-Holds id = (refl, refl, refl)

merge_batch-Merged_example :
    Ends
      (Merged sql coding view sql-IsSql (pets ∷ more_pets ∷ pets ∷ []) no_content)
      no_tables
      (merge_batch sql coding (pets ∷ more_pets ∷ pets ∷ []) no_tables)
merge_batch-Merged_example =
    merge_batch-Merged sql coding view sql-IsSql (pets ∷ more_pets ∷ pets ∷ []) no_content no_tables
      no_tables-Holds

put_batch-PutDone_example :
    Ends
      (PutDone sql coding view sql-IsSql (pets ∷ more_pets ∷ []) no_content)
      no_tables
      (put_batch sql coding (pets ∷ more_pets ∷ []) no_tables)
put_batch-PutDone_example =
    put_batch-PutDone sql coding view sql-IsSql (pets ∷ more_pets ∷ []) no_content no_tables
      no_tables-Holds

abbrev removal : Query
removal = record {
  op = delete;
  namespace = codes "*";
  selector = none;
  criteria = none;
  order = none;
  limit = pos 0;
}

abbrev two_ids : Query → Tables → Result (List StreamValue)
two_ids q t = ok (string_value (codes "s1") ∷ string_value (codes "s2") ∷ [])

delete_matching-DeleteDone_example :
    Ends
      (DeleteDone sql coding view sql-IsSql two_ids removal no_content no_tables)
      no_tables
      (delete_matching sql coding two_ids removal no_tables)
delete_matching-DeleteDone_example =
    delete_matching-DeleteDone sql coding view sql-IsSql two_ids removal no_content no_tables
      no_tables-Holds
