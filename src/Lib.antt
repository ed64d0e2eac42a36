-- ===== src/Lib.antt =====
-- Faunus: a key-value index over disaggregated memory, simulated in one process. Clients on
-- compute servers keep a tree of internal nodes and leaves in the memories of memory servers and
-- reach it by RDMA verbs only.
--
-- The parts and their files:
-- * Util/ArrayVar (src/util/array_var.hpp): keys and values as big-endian byte arrays; the
--   operators and constructors of `ArrayVar<N>`, as functions on lists of N bytes.
-- * Rdma/GlobalAddress (src/rdma/global_address.hpp): an address, a server and an offset in 50
--   bits.
-- * Rdma/Simulation (src/rdma/rdma_simulation.cpp): the memory of a server as a list of bytes, and
--   the verbs `rdma_read`, `rdma_write`, `rdma_cas` and `rdma_faa` as functions from the memory and
--   the descriptor to those after.
-- * Rdma/Manager (src/rdma/rdma_manager.cpp): `RDMAManager` as a record passed from operation to
--   operation. `perform_op` and `perform_batch` look up the server of an address (`get_server`),
--   wait, execute the verb there and count; `get_server_time_delay` models the queue at a server;
--   `rdma_try_acquire_lock` and `rdma_release_lock` build a lock word on CAS and FAA.
--   Rdma/Manager/Locks has the clients of such a lock as a step relation.
-- * Rdma/Allocators (src/rdma/memory_server.cpp, src/rdma/rpc_allocator.hpp,
--   src/rdma/local_allocator.hpp): chunks of the memory servers, given out in turn, and blocks of
--   one size cut from them. Rdma/Allocators/Slab has `SlabAllocator` over an interface for the
--   allocator of chunks, which Rdma/Allocators/Servers fills for a memory server, and one for the
--   queue of free blocks, which is third-party code.
-- * Util/LocalLock (src/util/local_lock_manager.hpp): the ticket lock with hand-over that the
--   threads of a compute server pass before that lock word. `acquire` is three functions, one for
--   each access to the shared word and flags; Util/LocalLock/Threads has the interleavings as a step
--   relation.
-- * Util/Histogram (src/util/thread_stats.hpp): `DiscreteHistogram::record` and `get_count`, and
--   `LogarithmicByteHistogram::get_bucket_index`.
-- * Util/Tracker (src/util/thread_stats.hpp): `ThreadStatsTracker`, which counts round trips,
--   verbs, bytes, retries and lock hand-overs of a tree operation, and the entries of
--   `ThreadStats::per_op`.
-- * Index/KvBlock (src/kv_index/faunus_index.hpp): the slot of a leaf in one 64-bit word.
-- * Index/Internal (src/kv_index/faunus_index.cpp): internal nodes: the step of `find_node`, the
--   insertion of `insert_internal_entry`, `split_internal_node` and `setup_new_root`, as functions
--   of the node that the code has read. The writes of these nodes go through the manager.
-- * Index/Leaf (src/kv_index/faunus_index.cpp): what a client does with a leaf that it has read:
--   `get_fingerprint_collisions`, the loop of `try_update_kvblock` over the words that its attempts
--   find in the slot, the scan of `handle_local_remove_dupes`, and the sorted distribution of
--   `split_leaf`.
-- * Index/Find (src/kv_index/faunus_index.cpp): `find_node` over a history that gives what each
--   read finds, with a cache given by its operations; Index/Outcome has the ways in which such loops
--   end.
-- * Index/Cached (src/kv_index/faunus_index.hpp): `FaunusCache`, the range cache as the cache of
--   `find_node`.
-- * Index/Client (src/kv_index/faunus_index.cpp): `get_candidate_kvs`,
--   `handle_local_remove_dupes`, `try_delete_kvblock` and the loop of `read`.
-- * Index/Insertion (src/kv_index/faunus_index.cpp): the loop of `insert`: the leaf that is read,
--   the search for the key, the probing for a free slot, the CAS and what follows it, up to the
--   split of the leaf.
-- * Index/Parent (src/kv_index/faunus_index.cpp): the loop of `insert_internal_entry`, with its
--   locks, over the functions of Index/Internal, the recursion of `split_internal_node` into the
--   level above, and `update_root_offset`.
-- * Index/LeafSplit (src/kv_index/faunus_index.cpp): `split_leaf` verb by verb on the leaf in
--   memory: `trylock_node`, the batches of `get_lock_unlock_kvblocks`, the read, the write and the
--   release, with what other clients do to the slots before each verb, and `insert_internal_entry`
--   of Index/Parent for the parent. The items that the slots point to are given by the keys in them,
--   and a leaf is written at once.
-- * Index/Maintenance (src/kv_index/faunus_index.cpp, src/util/maintenance_queue.hpp): the queues
--   of requested splits and their workers.
-- * Cache/Range and Cache/Counters (src/cache/range_cache.hpp): `RangeCache`, one operation at a
--   time, over a skip list and queues given by their operations, and its timestamps and epochs. It
--   allocates from Rdma/Allocators/Slab.
-- * Cache/Epochs (src/cache/range_cache.hpp): the guards, the retirement of entries and the scan
--   of `try_reclaim_budgeted` with the accesses of threads interleaved, as a step relation. The skip
--   list is taken to yield only entries that are in it.
-- * Index/Slot (shared by both indexes): where a key belongs among ascending separators.
-- * Index/Sherman (src/kv_index/sherman_index.hpp, src/kv_index/sherman_index.cpp): the second
--   index, a B-link tree. Internal has the internal pages: the choice of the child in `search_node`,
--   `get_leaf_from_cache_entry`, and `insert_to_internal` with its split, as functions of the page
--   that the code has locked and read, into an outcome that says which pages it writes or that an
--   assertion fails. Leaf has the leaves in the same way: the scan of `search_node` and
--   `insert_to_leaf` with its split, over the items that the records point to. Search has the loops
--   of `read`, `insert` and `search_and_insert_to_internal` from the root down, over a history that
--   gives what each read finds. Root has `initialize` and `update_root_offset`. Locks has
--   `try_lock_address` over the words that its attempts find, and `unlock_address` and
--   `write_page_and_unlock` over a node of Util/LocalLock.
-- * Prelude (shared by all): Boolean tests, lists, arrays and bit operations that the parts share.
--
-- Bounds and fuel. Words keep their wrap-around (`% 2 ^ 64`, the carries of the bytes). Loops are
-- structural recursions on the bytes, the entries or the operations left, so no fuel runs out;
-- only the retry loops of `setDifferentRandomFpAddr` run over a list of the random numbers to come
-- and answer `none` when it ends, and the loop of `try_update_kvblock` runs over the words found
-- and answers `pending` when they end. The loops of Index/Sherman/Search run on fuel, one unit for
-- each search, of which a read that follows no sibling makes one more than the tree has levels
-- above the leaves; for the loop of an insert the fuel is the number of retries in the code. The
-- searches of Index/Find run on fuel too, one unit for each node read, of which a search takes one
-- more than the level of the root at most; the loops of Index/Client, Index/Insertion and
-- Index/Parent have the number of attempts that the code allows, and an insertion into internal
-- nodes has one unit of fuel for each level. Keys in the indexes are numbers, by the order that
-- Util/ArrayVar/Order gives the byte arrays.
--
-- Not modelled: the writes of the internal nodes of a Faunus split, and those of a Sherman split,
-- one by one; of the Sherman index also the path stack and the cache; the internals of the skip
-- list and of the queues, which are third-party code; latencies and averages; logging, profiling,
-- thread placement and configuration, which are output and calls of the operating system; the
-- applications. The clock, the random numbers and what stands out of range in an array are
-- arguments of the definitions that read them.
pub mod Prelude
pub mod Util
pub mod Rdma
pub mod Index
pub mod Cache
