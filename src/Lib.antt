-- ===== src/Lib.antt =====
-- Verification library of the PMEM RTS cache, a persistent-memory cache written in C over libpmemobj.
--
-- The program's parts. src/map is a transactional hash map with chained buckets; src/queue a ring of
-- persistent entries; src/dual_domain/hashing the FNV hashes and two mixing functions;
-- src/dual_domain/filter a cuckoo filter over buckets of four octets, which takes its indices and
-- fingerprints from the hashes and its coin from src/random, and a list of such filters that is meant
-- to grow. src/cache puts a linked list of entries on top of the hash map. src/pmem.c is the program,
-- which fills and empties a filter. src/hash_ss finds an OpenCL device and builds a program for it.
--
-- Which file models which part:
--   Common, Pmem       shared names and lemmas; what the program uses of libpmemobj
--   Pmem/Direct, Layout   direct pointers of include/libpmemobj/base.h and type numbers of
--                      include/libpmemobj/types.h, which the code expands, with proofs
--   Pmem/Undo          words of memory and the calls of libpmemobj in a transaction; Pmem/Rollback and
--                      Reading the proofs about its snapshots
--   Transactions       the macros of include/libpmemobj/tx.h; Transactions/Straight the proofs
--   Queue/Memory, Map/Memory   the transactions of src/queue/queue.c and those of insert and remove in
--                      src/map/hashmap_tx.c on words of memory; Queue/Atomicity, Map/Atomicity and
--                      Transactions/Undoing the proofs about their snapshots
--   Queue/Starting, Simulation, Emptying, Running   queue_constructor, queue_enqueue, queue_dequeue and
--                      sequences of calls of src/queue/queue.c on words of memory, which Queue/Held
--                      relates to the queue as a record; Queue/Committing, Refining and Release the
--                      proofs about their transactions
--   Map/Table          src/map/hashmap_tx.h, hash and hm_tx_rebuild of src/map/hashmap_tx.c
--   Map/Update         hm_tx_insert, hm_tx_remove, create_hashmap and hm_tx_create
--   Map/Read           hm_tx_get, _lookup, _count, _foreach, _debug, _cmd and _check
--   Map/Chains .. Map/History   the proofs about these: chains, rows, the invariant, one file for
--                      each operation, and sequences of calls against an abstract map
--   Queue              src/queue/queue.h and src/queue/queue.c
--   Queue/Fifo         the bounded FIFO that the queue implements; its other children are proofs
--   Hashing/Fnv        src/dual_domain/hashing/fnv.c; Hashing/FnvLaws and FnvFamily the proofs
--   Hashing/Mix        src/dual_domain/hashing/hash_funcs.h; Hashing/MixLaws and Murmur the proofs
--   Filter/Bucket      src/dual_domain/filter/bucket.c; Filter/BucketLaws and BucketRun the proofs
--   Filter/Util        src/dual_domain/filter/util.h; Filter/Indices the proofs
--   Filter/Cuckoo      src/dual_domain/filter/cuckoo_filter.c; Filter/Capacity, Outcomes,
--                      Keys, Deletion, Insertion, Resetting and History the proofs
--   Filter/Scalable, Growth   src/dual_domain/filter/scalable_cuckoo_filter.c; Growth has scf_insert and the
--                      proofs
--   Map/Interface, Hashing/Interface, Queue/Interface, Filter/Interface, Filter/Contents   what
--                      src/map/hashmap_tx.h, src/map/hashmap.h, src/dual_domain/hashing/fnv.h,
--                      src/queue/queue.h and cuckoo_filter.h and bucket.h of src/dual_domain/filter
--                      declare, as records of operations, with the laws that clients rely on
--   Hashing/Binary     int2bin and murmur_hash_fp of src/dual_domain/hashing/hash_funcs.h, with proofs
--   Random             src/random/random.h; Random/Temper and Flips the proofs
--   Cache/Pool         src/cache/cache.h, and the objects and transactions of libpmemobj that it uses
--   Cache/Code         src/cache/cache.c; Cache/Keeps, Set, Get and History the proofs,
--                      Cache/Entries, Links, Unlinking, Deletion, Abort and Addition those about its linked list,
--                      and Cache/Macros that its transactions are what the macros make of them
--   Sampling           src/hash_ss/cl_context.c and src/hash_ss/sampling.cl, with proofs
--   Main               src/pmem.c
--   Examples           runs on small inputs, and each theorem applied to one
--
-- How the state and the operations correspond. A C struct is a record with its fields. A chain of
-- `struct entry` is the list of its entries, a flexible array member the list of its elements, and a
-- block of octets a list of numbers. An operation is a function with the name it has in C; a loop is a
-- helper above it. `none` stands for undefined behaviour, such as an access out of bounds, so an
-- equation with `some` says that there is none. An operation that runs a transaction takes whether
-- libpmemobj commits it, and an aborted transaction leaves the state as it was, as libpmemobj
-- documents. The cache calls the map and itself inside of its transactions, so its code is of a type
-- `Code` that may fault, abort or end: a number in the state says how many calls of libpmemobj succeed
-- before one aborts everything around it. Its entries are cells, of which a transaction allocates and
-- frees some; an abort gives these back, and not what was written to entries. `Setting` is what
-- `cache_new` meets in the pool. What `rand()` gives is a list of results, what C leaves undefined a
-- parameter. On words of memory an object is its offset in the pool, and a transaction keeps the ranges
-- that it added and the objects that it frees; where libpmemobj allocates, and what an abort and a
-- commit do to the pool, are parameters: `Heap`, `AbortCall` and `CommitCall`. `settled` follows which
-- words are of allocated objects, and is `none` where TX_FREE names what is not allocated. Other reads
-- and writes of words are not held against it.
--
-- Bounds. Numbers are natural numbers, and each addition, multiplication or shift that can leave
-- `uint32_t`, `uint64_t` or `size_t` is reduced by 2 ^ 32 or 2 ^ 64. The `int` that counts the entries
-- of a chain is not reduced, as a chain of 2 ^ 31 entries is not reached. Loops recur on a list or on
-- the number of rounds that the C loop makes, so they need no fuel; cf_reinsert makes ten rounds. The
-- loop of a transaction block alone has fuel, of which four tests are enough.
--
-- Not modelled: how libpmemobj keeps its undo log, of which the ranges that the code adds are modelled;
-- crashes in the middle of a transaction; which fields the cache adds, as an abort always gives back
-- those of the cache and never those of an entry; OID_INSTANCEOF of a pointer to no object, which is
-- false here and undefined in libpmemobj; a rebuild within a transaction of the cache whose allocation
-- is over the limit, which goes on with the old table here; hm_tx_rebuild on words of memory; printing, but
-- for the lines of hm_tx_debug; arithmetic on `float`, which is a parameter, as are OpenCL and the file
-- system; src/layout.h, the tf-idf header and the other headers of src/hash_ss, which hold declarations;
-- and the headers under include, which are a library's, but for what the code expands of them.
pub mod Common
pub mod Pmem
pub mod Map
pub mod Transactions
pub mod Hashing
pub mod Random
pub mod Queue
pub mod Filter
pub mod Cache
pub mod Sampling
pub mod Main
pub mod Examples
