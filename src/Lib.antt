-- ===== src/Lib.antt =====
-- A verification library for concat, the Go implementation of a mediachain node (mcnode), of its
-- directory server (mcdir) and of what they share (mc). Nodes keep signed statements about data
-- objects, answer queries over them, and exchange both; directories tell nodes of one another.
--
-- Base: Go values. A string is a list of bytes (`Text`), a map an association list with one entry to a
--   key (`Dict`), a set a list without doubles, a slice or pointer that may be nil an `Option`.
--   `Result` holds a value, an error or a run-time panic. The native ℕ and a ℤ over it stand for
--   int and int64; the modelled code does no arithmetic on them but count items, and bounds are
--   stated where numbers are read or written.
-- Query (mc/query/query.go): the parsed query. Query.Statement (mc/query/stmt.go,
--   proto/stmt.proto): statements, statement_refs (StatementRefs), statement_source.
-- Query.Filter (mc/query/eval.go, first half): make_criteria_filter_f, make_namespace_filter and
--   their tables. Query.Selector and Query.ResultSet (mc/query/eval.go, second half): the simple
--   and function selectors, and the three result sets. Query.Eval: eval_query (EvalQuery). The
--   children of these modules hold a direct reading of a query (satisfies, matches_pattern, asks,
--   distinct) and the theorems about it. The filters read the source of every statement as its
--   publisher; asks does the same, and satisfies has that of the first statement of an envelope.
-- Query.Parse (mc/query/parse.go; Execute of mc/query/query.peg.go): the stack machine of the parser's
--   actions. Query.Parse.Emit (mc/query/query.peg): the tokens that the grammar emits for a query.
-- Query.Compile (mc/query/compile.go): Kind decides which tables a query reads, Clauses builds the
--   SQL text, Rows reads the rows back, compile_query (CompileQuery) puts them together.
-- Mc.Message (mc/message.go, queryHandler of mcnode/proto.go): peer descriptions and query values as
--   messages.
-- Directory (mcdir): Peers (mcdir/dir.go), Manifests (mcdir/mfs.go), Handler (mcdir/proto.go).
--   The handler of a peer's registration is a loop over the requests it reads; handlers of several
--   peers interleave request by request, which handle_events runs in any order. The lock of the
--   manifest store is released while a key is looked up; the model lets nothing happen in between.
--   Directory.Serve: the handlers that only read, and the lookup of a peer by a node (doDirLookupImpl
--   and the loop of doLookupImpl of mcnode/net.go).
-- Node.Auth (mcnode/node.go): the rules by which a peer may push statements into namespaces.
--   Node.Auth.Json: their form in the configuration.
-- Node.Merge (doMergeDataImpl of mcnode/proto.go): the fetch of the objects that merged statements
--   refer to, as a loop over the messages that the peer sends.
-- Node.Statements (mcnode/node.go): check_statement, verify_statement_cache_keys, do_import,
--   make_statement, do_publish_batch. Node.Database (mcnode/db.go): put_batch, merge_batch,
--   delete_matching, get; Tables says what is relied on of SQLite, and a Content, the statement of each
--   identifier, is the specification. Node.Database.Stream: query_stream (QueryStream). Node.Gc
--   (mcnode/gc.go): do_gc, under a context that may be done before a channel is read to its end.
-- Node.Serve (dataHandler of mcnode/proto.go): the peer of a merge of objects. Node.MergeStream
--   (doMergeStream): the merge of a stream of statements in batches, with the goroutines that fetch
--   objects seen from the channels they share. Node.Push (pushHandler): the merge of what an authorized
--   peer sends. A statement that the merge no longer receives ends the handler's loop, which the
--   model finds from the number of statements that the merge received.
-- Node.Status and Node.Network (mcnode/net.go): go_offline, go_online, go_public, and the addresses of
--   a node. Node.Api (mcnode/api.go): publication, import and the status.
-- Mc.Handle and Mc.Subnet (mc/util.go): handles and the classes of addresses. Mc.Nat (mc/nat.go): NAT
--   configurations.
-- Tests: samples, and runs of the theorems on them.
--
-- Loops are structural recursions over the list that the code ranges over, so no fuel is needed. The
-- order in which Go ranges over a map is left open by the language: that over the values of a result
-- set is an argument of eval_query, and the theorems hold for each. The other maps are lists of entries
-- or of keys in the order of insertion, and loops over them go in that order; where several entries
-- fail, Go may report another one of them.
--
-- Parameters stand for code outside the repository: strconv.Atoi and the digits of a number
-- (Query.Parse), fmt's `%d` (Query.Compile), protobuf decoding and the Scan of database/sql
-- (Query.Compile.Rows), libp2p identities and multiaddresses (Mc.Message.Codec), the encoding, hash,
-- key lookup and signature check of manifests (Directory.Manifests.Services), and the datastore, the
-- hash, the stream of a merge and the length of its messages (Node.Merge.Services); signatures and
-- keys (Node.Statements.Verifier and Signer), the prepared statements and transactions of SQLite (Node.Database.Sql, Node.Gc.RefsDb),
-- protobuf's coding of statements (Node.Database.Coding), RocksDB's keys (Node.Gc.Objects), the base 58
-- texts of keys, the rows of a query (Node.Database.Stream.Driver), encoding/json (Node.Auth.Json.Json),
-- libp2p's hosts (Node.Network.Hosts), multiaddress and subnet tests (Mc.Subnet.Ip4),
-- HTTP services and package regexp (Mc.Nat.Outside), and the decoders of requests (Node.Api.Requests).
--
-- Not modelled: the recognizer generated in mc/query/query.peg.go and the generated message codecs
-- under proto; the storage bindings mcnode/ds.go and the opening and vacuuming of mcnode/db.go; the
-- handlers of mcnode/api.go that only call one method, the directory clients and connections of
-- mcnode/net.go and mcnode/dht.go; the query handler and the push client of mcnode/proto.go; the
-- cancellation of contexts but where a merge hands keys over and in a garbage collection;
-- key files, HTTP lookups, process start.
pub mod Base
pub mod Query
pub mod Mc
pub mod Directory
pub mod Node
pub mod Tests
