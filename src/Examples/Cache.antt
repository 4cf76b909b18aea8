-- ===== src/Examples/Cache.antt =====
-- src/cache on a cache of two sentinels with an empty map.
use pmem_rts_cache.Common.{
  ℕ, ◌≡◌, refl, ◌==◌, true, false, none, some, List, [], ◌∷◌, if◌then◌else◌, arith,
  get_or-replicate, ◌⊎◌, replicate,
}
use mathlib.Core.Option
use pmem_rts_cache.Pmem.{PmemOid, oid_null}
use pmem_rts_cache.Map.Table.{HashmapTx, Chain, hash, zalloc_buckets}
use pmem_rts_cache.Map.Chains.{find}
use pmem_rts_cache.Map.Rows.{view}
use pmem_rts_cache.Map.Read.{hm_tx_get, hm_tx_count}
use pmem_rts_cache.Map.Invariant.{IsValid, contents}
use pmem_rts_cache.Map.Update.{fresh_map}
use pmem_rts_cache.Map.Creating.{fresh_map-IsValid}
use pmem_rts_cache.Cache.Pool.{
  CacheEntry, Cache, Cell, vacant, kept, fresh, doomed, Pool, Allocator,
}
use pmem_rts_cache.Cache.Code.{CacheStatus, ok, failed, is_mapped, cache_get, cache_set, Setting}
use pmem_rts_cache.Cache.Set.{map_of, Fewer, cache_set_lem}
use pmem_rts_cache.Cache.History.{
  IsEmpty, CacheCall, get, set, cache_step, cache_run, AllMiss, cache_run_misses,
}

abbrev pub place : ℕ → PmemOid
place at = record { pool_uuid_lo = 7; off = at }

abbrev pub blank : CacheEntry
blank = record { key = 0; value = 0; padding = 0; prev = oid_null; next = oid_null }

-- The head stands at 16 and the tail at 32.
abbrev sentinels : ℕ → Cell
sentinels at =
    if at == 16
    then kept (record blank { next = place 32 })
    else if at == 32
    then kept (record blank { prev = place 16 })
    else vacant

-- Two places are given out in turn.
abbrev next_place : Cell → PmemOid
next_place vacant = place 48
next_place (kept e) = place 64
next_place (fresh e) = place 64
next_place (doomed e) = place 64

abbrev pub allocator : Allocator
allocator = record { place = λ cell. next_place (cell 48); unset = blank }

abbrev empty_map : HashmapTx
empty_map = fresh_map 0 3 4

abbrev pub empty_cache : Cache
empty_cache = record { head = place 16; tail = place 32; capacity = 2; hashmap = some empty_map }

abbrev pub pool : Pool
pool = record { cell = sentinels; cache = some empty_cache; luck = 0 }

empty_map-IsValid : IsValid empty_map
empty_map-IsValid = fresh_map-IsValid 0 3 4 (omega arith) (omega arith) (omega arith)

empty_map_reads : (q : ℕ) → contents empty_map q ≡ none
empty_map_reads q =
    unfold view find zalloc_buckets in rw (get_or-replicate {A = Chain} 10 _ []) refl

pool-IsEmpty : IsEmpty pool
pool-IsEmpty = record {
  map = empty_map;
  has = refl;
  valid = empty_map-IsValid;
  reads = empty_map_reads;
}

missing : is_mapped pool (Option.get_or (contents empty_map 9) oid_null) ≡ false
missing = rw (empty_map_reads 9) refl

-- Every call of libpmemobj succeeds.
abbrev after_set : CacheStatus × Pool
after_set = Option.get_or (cache_set allocator 99 pool 9 5) (failed, pool)

set_runs : cache_set allocator 99 pool 9 5 ≡ some after_set
unfolding cache_set hash hm_tx_get zalloc_buckets replicate hm_tx_count
set_runs = refl

cache_set_lem_example :
    (m' : HashmapTx) × (map_of after_set.1.cache ≡ some m')
    × Fewer empty_map m'
    × ((after_set.0 ≡ ok) ⊎ (after_set.1.cache ≡ pool.cache))
cache_set_lem_example =
    cache_set_lem allocator 99 pool 9 5 empty_map after_set refl empty_map-IsValid set_runs

abbrev two_calls : List CacheCall
two_calls = set 99 9 5 ∷ get 99 9 true ∷ []

calls_run : cache_run allocator pool two_calls ≡ some (ok ∷ failed ∷ [])
unfolding cache_run cache_step cache_set cache_get hash hm_tx_get zalloc_buckets replicate
    hm_tx_count
calls_run = refl

cache_run_misses_example : AllMiss two_calls (ok ∷ failed ∷ [])
cache_run_misses_example =
    cache_run_misses allocator two_calls pool (ok ∷ failed ∷ []) pool-IsEmpty calls_run

-- The program as it is, and with everything in the pool.
abbrev stack_variable : Setting
stack_variable = record {
  cache_in_pool = true;
  hashmap_in_pool = false;
  allocates = true;
  creates = true;
  commits = true;
  head = oid_null;
  tail = oid_null;
}

abbrev all_in_pool : Setting
all_in_pool = record stack_variable { hashmap_in_pool = true }
