-- ===== src/Lib.antt =====
-- Verification library of the embedding cache (NVIDIA's nv-embedding-cache).
--
-- The program keeps rows of embedding tables by key. Layers look up batches of keys in a chain of
-- tables: a set-associative cache of device memory, a table in host memory, and a remote store. An
-- insert heuristic decides from the hit rate when a layer inserts the keys it missed, and a thread
-- pool runs the tasks of a batch on the host.
--
-- The parts and their files:
-- - Common: names passed on from the libraries, Boolean tests, lists by native numbers, counts of
--   occurrences, and bounds of masks.
-- - Partitioner: the partitioners of include/host_table.hpp, which name the partition of a key.
-- - StlTable: STLContainerTable of include/stl_map_backed_table_detail.hpp. StlTable.Part.Defs has
--   the state of a partition (slot_map, available_slots, slot memory) and the bodies of the loops of
--   insert, update, update_accumulate, erase, clear and find_; StlTable.Table.Defs has the calls
--   over all partitions and the checks of the configuration (src/stl_map_backed_table.cpp,
--   src/host_table.cpp); StlTable.Table.Find has find_ with its tasks and the bitmask of
--   include/bit_ops.hpp. StlTable.Table.Calls runs calls in sequence, with any value sizes; an
--   insert of a shorter row leaves the rest of its slot as it is. StlTable.Dict is the map of keys
--   to slots. A slot's address is its number, and a slot's row and metadata are kept apart. The hit
--   mask, the key and row buffers are lists.
-- - ThreadPool: the pools of src/thread_pool.cpp and the submission loops of
--   include/thread_pool_base.hpp. A pool is the list of its workgroups, each with a queue and its
--   workers; ThreadPool.Defs has submission, the turns of the workers and the destructors.
-- - InsertHeuristic: the heuristics of src/insert_heuristic.cpp. Arithmetic on float and the random
--   numbers are parameters, as is the arithmetic on double of the overflow policy.
-- - EcCache: CacheSAHostModify of include/ecache/ec_set_associative_host_modify.h with the hash of
--   include/ecache/ec_hash.h and the kernels of include/ecache/ec_set_associative.cuh. The arrays of
--   a table are functions of the slot.
-- - LinearTable: LinearHostTable of include/linear_host_table.hpp with its gather and update kernels
--   (cpu_ops/cpu_gather.h, cpu_ops/cpu_update.h). Memory is a function of the byte, and one of the
--   4-byte elements where rows are added. The tasks of a call run in any order that names each of
--   them once.
-- - AutoInsert: AutoInsertHandler of src/layer_utils.cpp and ResizeableBuffer of
--   include/resizeable_buffer.hpp: the lock, the counters, the scratch buffers, and the task of an
--   insert that is launched and runs later.
-- - Layer: the lookup and the modifications of HierarchicalEmbeddingLayer
--   (src/hierarchical_embedding_layer.cu) and the lookup of HostEmbeddingLayer
--   (src/host_embedding_layer.cpp). Layer.Construct has the checks of the constructor and the
--   default heuristic, Layer.Lookup the loop over the tables, the counters and the default
--   embedding, Layer.Modify insert, update, accumulate, erase and clear with the locks of the
--   handlers. A table is a Resolver; KnownTable is what a layer may rely on in a table's find.
--   Layer.MapTable gives the STL table as a KnownTable, whatever well-formed partitions it has, and
--   Layer.Linear makes the linear table a Resolver. Layer.HostLookup has the lookup of the host
--   layer with its own loop.
-- - Tests: the theorems at concrete inputs.
--
-- Interaction: a layer looks its tables up in turn, each on the hit mask that the tables before it
-- left, writes the default embedding for the keys that no table has, and hands keys, rows and hit
-- mask to the automatic inserts of each table, whose heuristic reads the hit rates. A modification
-- of a table takes the lock of its automatic inserts first. The tasks that StlTable.Table.Defs runs
-- over the partitions are those that a pool queues by index; the partitioner decides which task
-- handles a key. The counters of EcCache use the arithmetic of InsertHeuristic.
--
-- Bounds and fuel: submission rounds have the number of tasks as fuel, and each round submits one at
-- least; a loop over a mask word has its number of bits as fuel, and each turn clears a bit. The
-- partitioners, the counter of inserts and the signed counters of a layer wrap around at 64 bits,
-- and stored keys and tags at the width of their type. Other numbers are natural numbers: sizes and
-- offsets of buffers are assumed not to overflow.
--
-- Undefined behaviour (the last element of an empty vector, a write behind a list of entries) is
-- none or the outcome undefined, and an exception is none or the outcome throws.
--
-- Not modelled: CUDA streams, events and kernels, GPU tables and the copies between host and device
-- that a layer makes for them, pooling, locks inside a table (an operation holds its lock
-- throughout, so that tasks are steps), futures, JSON, logging, plugins, bindings, and allocation of
-- host and device memory. A lookup of the STL table without a hit mask is the outcome undefined.
pub mod Common
pub mod Partitioner
pub mod StlTable
pub mod EcCache
pub mod InsertHeuristic
pub mod ThreadPool
mod Tests
pub mod LinearTable
pub mod AutoInsert
pub mod Layer
