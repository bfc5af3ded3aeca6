-- ===== src/Lib.antt =====
-- Verification of the vector database: the engine (engine/src, engine/include), which keeps tables
-- of vectors with text, finds the nearest vectors to a query, and copies its tables to replicas.
--
-- The parts, from below:
--   Float            the C++ type float, as an interface; `Ordered` states what IEEE 754 says of <
--   Index            engine/include/index/vector_index.h: the interface VectorIndex
--   Index/Distance   ComputeDistance of engine/src/index/flat_index.cc and hnsw_index.cc
--   Index/Nearest    std::pair<float, Id>, std::priority_queue and std::sort over it
--   Index/Flat       engine/src/index/flat_index.cc: FlatIndex, every operation
--   Index/Hnsw       engine/src/index/hnsw_index.cc: HNSWIndex, every operation. SearchLevel and
--                    SelectNeighbors in Index/Hnsw/SearchLevel; Insert, ConnectNeighbors, Remove,
--                    Search, Cleanup and Reindex in Index/Hnsw/Update; the invariant `IsValid` and
--                    what preserves it in Index/Hnsw/Valid
--   Index/Laws       what a store asks of an index: `IndexView` (which vectors an index stands for)
--                    and `IndexLaws`. Index/Flat/Laws and Index/Hnsw/Laws are about these laws;
--                    Index/Any is the index behind the pointer of a store, either of the two
--   Store            engine/src/store/vector_store.cc: VectorStore, over any index with these laws
--   Cache            engine/src/cache/lru_cache.cc: LRUCache. Its specification is a bounded queue
--                    of entries, Cache/Queue
--   Stats, Metrics   engine/src/stats/stats_manager.cc and engine/src/metrics/metrics_manager.cc
--   Validator        engine/src/util/input_validator.cc
--   Engine           engine/src/engine.cc: the maps from tables to these parts, Insert, Remove,
--                    Search, BatchInsert, BatchRemove, GetStats, GetMetrics, ListTables and
--                    Cleanup
--   Engine/Batch     BatchSearch, with its cache. The tasks of the thread pool interleave their
--                    writes to the metrics: the order of these writes is an argument
--   Engine/Tables    CreateTable, CreateTableOnReplica, DropTableOnReplica, ApplyWALEntry on a
--                    replica, and Sync of engine/src/replica/replica_manager_service_impl.cc
--   Persistence      engine/src/storage/persistence_manager.cc: VectorPersistenceManager. Its reads
--                    from a stream in Persistence/Stream, the log (AppendInsert and the other
--                    writers, ReplayWAL, SerializeWALEntries) in Persistence/Wal, snapshots and
--                    metadata in Persistence/Snapshot, and the messages of
--                    engine/proto/storage.proto in Persistence/Messages
--   Recovery         the constructor of engine.cc, which restores the tables from their files, and
--                    what the destructor saves; the engine over these files
--   ReplicaManager   engine/src/replica/replica_manager.cc: Sync, the rounds of its loop, and
--                    DropTable of engine.cc, which calls it; in ReplicaManager/Following and in
--                    ReplicaManager/Replication a primary beside a replica
--   Server           server/src/vector_db_service_impl.cc: the handlers, with their status, and the
--                    order in which requests and the calls of the cleaner reach the engine
--   Prelude          numbers, lists, association lists (Prelude/Map) and sets (Prelude/Set)
--   Tests            runs on small inputs
--
-- How the code is read. A std::unordered_map is an association list and a std::unordered_set a
-- list; the order of the list stands for the order of iteration, which the theorems leave open. One
-- operation of the engine is one step. CreateTable, DropTable and Cleanup hold the lock of the
-- engine alone; Insert, Remove, Search, the batch calls and the readings of counters share it, so
-- that their calls of the store, the counters, the log and the cache, each of which runs under the
-- lock of its own object, may be interleaved with those of another request: these interleavings are
-- not modelled, and the theorems are about requests one after the other, in any order. A function
-- that may throw (`at` on a missing key), or reads what C++ leaves undefined, gives an Option,
-- where `none` is that outcome. Numbers of 64 bits carry `% 2 ^ 64`. Dimensions, levels and sizes
-- are taken to be at least 0. A level -1 of an empty HNSW index is the number 0 of `levels`, which
-- is max_level_ + 1. The random level of a node is a function of its identifier, as the generator
-- is seeded with it: the interface `LevelSource`. std::hash<float> is the interface `FloatHash`.
-- Clock readings are arguments. A text is the list of its bytes. How a float is printed and read is
-- the interface `FloatText`, the wire format of a message the interface `Protobuf`, and what the
-- replicas answer the interface `Network`; what the code relies on of the first two are
-- `FloatTextLaws` and `ProtobufLaws` (Persistence/Messages/Laws): a message whose map keys are
-- distinct, whose numbers are in the range of their fields and whose strings are UTF-8 is parsed as
-- it was serialized, but for the order of its maps. Files can be opened, and what a stream was
-- given is in its file. Numbers in the log have no sign. The engine writes to its files through the
-- interface `Disk`, which `file_disk` of Recovery fills. A call that does not return, as one that
-- waits for a lock it holds, is `none` as well. Two variables of the constructor that may have no
-- value yet are its arguments. std::sort and the priority queues are used by the code at any float;
-- where NaN occurs in a sort, C++ leaves the order undefined, and the model sorts by insertion.
--
-- The two loops that are not structural. SearchLevel runs `explore` on fuel, the number of nodes
-- and two more: a node is a candidate once at most, since it is visited then, so that the fuel is
-- never what ends the loop (Index/Hnsw/SearchLevel/Total). The search for a new entry point goes
-- down one level in each round, and the model counts the levels. ReplicaManager::Sync tries four
-- times (kRetryCount + 1), written as the list of these numbers.
--
-- The invariants. `IsValid` of an HNSW index: identifiers are distinct, links lead to nodes, go
-- both ways and are at most m0 or m at each node, the sets of node_levels_ hold exactly the active
-- nodes of their levels, the entry point is active and on the highest level, and there is one where
-- a node is active. `IsIndexed` of a store: its index is in order, entries stand under their
-- identifiers, and the index stands for no vector but those of the entries. `IsComplete`: every
-- stored entry is in the index, as long as identifiers that were removed and not cleaned up (the
-- stale ones) are not inserted again. `IsRunning` of an engine: each table has its store and
-- counters, the store is in order, and the counters account for its entries. `IsServing` adds that
-- the caches are in order and have room, where they are used. `IsFollowing` of a primary and a
-- replica: both are in order, and the table of one mirrors that of the other. `IsSaved` of the
-- files of a table: metadata and snapshot load, and give the store that was saved. `IsDurable` of a
-- table: its files are saved, its log is that of the calls since then, and replaying these calls on
-- the saved store leads to a store that mirrors the one in memory (`Mirrors`), which is that it has
-- the same entries, up to the digits that the log keeps of a float.
--
-- What is not modelled: the thread of the cleaner (engine/src/cleaner), whose calls of Cleanup are
-- events of the server; the thread pool, and the threads and the gRPC server of the replica
-- manager; the loggers, which only write; the flags of server/src/main.cc; and the code that gRPC
-- and Protobuf generate. Cosine distance and square root are what the float interface makes of
-- them.
mod Prelude
pub mod Float
pub mod Index
pub mod Store
pub mod Cache
pub mod Stats
pub mod Validator
pub mod Metrics
pub mod Engine
pub mod Persistence
pub mod Recovery
pub mod ReplicaManager
pub mod Server
mod Tests
