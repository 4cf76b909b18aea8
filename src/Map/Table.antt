-- ===== src/Map/Table.antt =====
-- src/map/hashmap_tx.h and hashmap_tx.c: the data of the hash map, its hash function and
-- `hm_tx_rebuild`.
-- A bucket is the list of the entries that hang off `bucket[i]` through `next`. `none` is undefined
-- behaviour: a division by zero or an access past the allocated buckets. Each function that runs a
-- transaction takes whether libpmemobj commits it.
use pmem_rts_cache.Common.{
  ℕ, zero, suc, ◌+◌, ◌-◌, ◌*◌, ◌/◌, ◌%◌, Bool, ◌&&◌, Option, none, some, List, [], ◌∷◌, leb, ◌==◌,
  if◌then◌else◌, ◌>>=◌, get_elem?, set, replicate,
}
use pmem_rts_cache.Pmem.{PmemOid, max_alloc_size, u64_mod}

-- `struct entry`, without `next`.
pub record Entry : Type 0 where
  pub key : ℕ
  pub value : PmemOid

abbrev pub Chain : Type 0
Chain = List Entry

-- `struct buckets`
pub record Buckets : Type 0 where
  pub nbuckets : ℕ
  pub bucket : List Chain

-- `struct hashmap_tx`
pub record HashmapTx : Type 0 where
  pub seed : ℕ
  pub hash_fun_a : ℕ
  pub hash_fun_b : ℕ
  pub hash_fun_p : ℕ
  pub count : ℕ
  pub buckets : Buckets

-- `HASH_FUNC_COEFF_P`
abbrev pub hash_func_coeff_p : ℕ
hash_func_coeff_p = 32212254719

-- `INIT_BUCKETS_NUM`
abbrev pub init_buckets_num : ℕ
init_buckets_num = 10

-- `MIN_HASHSET_THRESHOLD`
abbrev pub min_hashset_threshold : ℕ
min_hashset_threshold = 5

-- `MAX_HASHSET_THRESHOLD`
abbrev pub max_hashset_threshold : ℕ
max_hashset_threshold = 10

-- `sizeof(struct buckets) + n * sizeof(TOID(struct entry))`, in `size_t`.
abbrev pub buckets_size : ℕ → ℕ
buckets_size n = (8 + n * 16) % u64_mod

-- `TX_ZALLOC(struct buckets, sz)`, then `nbuckets = n`: as many null heads as `sz` has room for.
unfoldable pub zalloc_buckets : ℕ → ℕ → Buckets
zalloc_buckets sz n = record { nbuckets = n; bucket = replicate ((sz - 8) / 16) [] }

-- `hash`, in `uint64_t` arithmetic.
unfoldable pub hash : HashmapTx → Buckets → ℕ → Option ℕ
hash m bs value =
    if m.hash_fun_p == 0
    then none
    else if bs.nbuckets == 0
    then none
    else some (((m.hash_fun_a * value + m.hash_fun_b) % u64_mod % m.hash_fun_p) % bs.nbuckets)

-- The `while` of `hm_tx_rebuild`: each entry of one old bucket becomes the head of its new one.
unfoldable pub move_chain : HashmapTx → Chain → Buckets → Option Buckets
move_chain m [] new = some new
move_chain m (en ∷ es) new = do
  h ← hash m new en.key
  head ← get_elem? new.bucket h
  move_chain m es (record new { bucket = set new.bucket h (en ∷ head) })

-- The `for` of `hm_tx_rebuild` at index `i`, with `left` rounds to go.
unfoldable pub move_buckets : HashmapTx → Buckets → ℕ → ℕ → Buckets → Option Buckets
move_buckets m old zero i new = some new
move_buckets m old (suc left) i new = do
  es ← get_elem? old.bucket i
  new' ← move_chain m es new
  move_buckets m old left (i + 1) new'

-- `new_len` after the test for zero.
abbrev pub rebuilt_len : HashmapTx → ℕ → ℕ
rebuilt_len m new_len = if new_len == 0 then m.buckets.nbuckets else new_len

-- `hm_tx_rebuild`. An abort is printed and leaves the map as it was.
unfoldable pub hm_tx_rebuild : Bool → HashmapTx → ℕ → Option HashmapTx
hm_tx_rebuild commits m new_len =
    let n = rebuilt_len m new_len in
    let sz_new = buckets_size n in
    if commits && leb sz_new max_alloc_size
    then (do
      new ← move_buckets m m.buckets m.buckets.nbuckets 0 (zalloc_buckets sz_new n)
      some (record m { buckets = new }))
    else some m
