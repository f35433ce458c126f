-- ===== src/Lib.antt =====
-- MiniDB: a relational database in C++ with a SQL front end, page storage, locks and a write-ahead
-- log. This library models its components, with theorems about each.
--
-- The parts and how they interact. src/main.cpp is the engine: it hands a line of text to the lexer
-- and the parser (src/parser), runs the statement over the executors (src/query) inside a
-- transaction (src/transaction), and records it in the log (src/recovery). Executors reach rows
-- through the heap files of src/storage/PageManager.cpp and the index of src/index, and those reach
-- the disk through the buffer pool and the disk manager of src/storage. Modelled here are the
-- front end, the transactions with their locks, the log, the storage, the index and the bytes of a
-- row.
--
-- The files.
--   Base: Boolean tests, lists over the native numbers, `int` as a mathematical integer with its
--     range, byte strings and little-endian images, `unordered_map` as an association list.
--   Common: src/common. `Result` is a call that returns or throws (Exception); Value, Schema, Tuple
--     and Rid are the structs of value.h, column.h, schema.h, tuple.h and rid.h.
--   Parser: src/parser. Lexer is lexer.cpp: `handle_input` is Parser::handleInput. Primitives and
--     Parser are parser.cpp, one function for each parse method; the position in the token vector
--     is the list of tokens that are left. Grammar says which token lists are which statements, and
--     Items and Accepts are about the parser on them.
--   Transaction: src/transaction. Requests, LockManager and Deadlock are LockManager.cpp: the
--     requests on one resource, the calls, and hasDeadlock with detectCycle. A call runs under the
--     manager's mutex, so it is one step; a wait on the condition variable ends the step, and
--     `wake` is the test of the predicate and what follows it. Threads makes an interleaving a list
--     of events, with one thread for each transaction; Compatible, Tables, Granting, Safety and
--     Interleaving are about what those events keep. Manager is Transaction.cpp.
--   Recovery: src/recovery/LogManager.cpp. Serialize has a record and its bytes, Log the file and
--     the stream's buffer with the calls. A crash keeps the file and some first part of the buffer.
--     Frames, Durable and Calls relate it to an abstract log of durable and pending records, and
--     Opening is about a log that an earlier session left.
--   Storage: src/storage. DiskManager is DiskManager.cpp over a map from paths to bytes. PageStore
--     is the interface that BufferPool (BufferPool.cpp) takes and that DiskManager.Pages fills. A
--     page is handed out as its frame's index. View is what a caller sees of the cached disk, with
--     the pool's invariant; Loading, Evicting, Relisting, Vacating, Touching and Fetching go through
--     the steps of fetchPage, Unpinning and Flushing through unpinPage and flushPage. PageManager is
--     one heap file as a list of slotted pages, as they are after the pool is written back; Slots and Clearing are about one page, Choosing about findFreePage, Entries about the
--     file as a map, Runs about sequences of calls, Scanning about scanTable.
--   Query: TupleBytes is serializeTuple and deserializeTuple of src/query/Executor.cpp.
--   Index: src/index. BPlusTree has the node vector with search and range scan, Insertion is `insert`
--     with the splits, each `none` where its reference to a node is dangling, Removal is `remove` with the balancing of leaves. A key k stands as the number
--     k + 2^31. Shape says what a sound tree is: each node has a range of keys, the leaves hold the
--     entries of one map, and each leaf is linked to the one behind it. Searching, Leaves, LeafSplit,
--     LeafHalves, Attaching, Attached, Halving, InnerSplit, InnerHalves, Growing, Grown, Calls, Climbing,
--     First and Inserting go through search and the steps of an insertion on the nodes, Agreement
--     and HalvesAgree relate those to the vectors that the calls build, Building fills a tree,
--     Dangling fills one whose vector has no room to spare, and LeafScan and Scanning are about the
--     range scan.
--   Tests: runs at small inputs, and each theorem applied at one.
--
-- Numbers. Unsigned fields are native numbers with `% 2 ^ w` where the source wraps; an
-- `int` is written and read by its 32-bit pattern. Loops are structural, or take fuel. The lexer and
-- the loops of the parser over a list take the length of what they read, of which each round takes
-- some. `read_records` takes the length of
-- the file: each round takes the four bytes of a size. `detect_cycle` takes one more than the number
-- of entries of the wait-for graph: each level of calls marks an entry that was not marked, or a
-- transaction without one, whose loop is empty. The walks of the tree take the number of nodes: a
-- descent and the way up take a level each, a range scan a leaf each.
--
-- Parameters. The C library's streams and containers are modelled by what they are documented to
-- do: a flushed stream's bytes are in the file, an unflushed stream's may be. A map is never walked
-- in an order that matters. Memory is not exhausted. How many elements a vector has room for after it
-- grew is the function `grow` of the tree. Where a split of a node uses a reference that the growth of
-- the vector has made dangling, the insertion is undefined, and its result is `none`.
--
-- Not modelled: the page manager's own calls of the buffer pool, the catalog of src/storage, the
-- executors but for the bytes of a row, the optimizer, crash recovery's replay and the engine, which
-- build on what is here; printing, the prompt and the benchmarks, which only read and write text.
pub mod Base
pub mod Common
pub mod Index
pub mod Parser
pub mod Query
pub mod Recovery
pub mod Storage
pub mod Transaction
mod Tests
