-- ===== src/Cache/Code.antt =====
-- src/cache/cache.c: the operations of the cache.
-- The map pointer that `hm_tx_check` accepts is a hash map, so the check fails where `hashmap` is
-- `none`. An `int` is its pattern of 32 bits.
use pmem_rts_cache.Common.{
  ◌-◌, ltb, ℕ, ◌*◌, ◌+◌, ◌%◌, ◌^◌, Bool, ◌&&◌, Option, none, some, List, ◌==◌, if◌then◌else◌, true,
  false, ◌||◌, not,
}
use pmem_rts_cache.Pmem.{PmemOid, oid_is_null, u64_mod, u32_mod}
use pmem_rts_cache.Map.Update.{
  Created, created, not_created, terminated, hm_tx_insert, hm_tx_remove, hm_tx_create,
}
use pmem_rts_cache.Map.Read.{hm_tx_get, hm_tx_count}
use pmem_rts_cache.Cache.Pool.{
  CacheEntry, Cache, Pool, Tx, fault, aborted, done, Code, pure, ◌>>=◌, ◌>>◌, call, cache_fields,
  held, load, store, set_next, set_prev, tx_memcpy, tx_free, Allocator, tx_new, on_map, read_map,
  committed, rolled_back,
}

-- 0 and -1.
pub data CacheStatus : Type 0 where
  ok failed : CacheStatus

-- `TOID_IS_NULL(cache) || hm_tx_check(pop, D_RO(cache)->hashmap)`
abbrev pub refuses : Pool → Bool
refuses w = elim w.cache [ none ↦ true | some c ↦ elim c.hashmap [ none ↦ true | some m ↦ false ] ]

-- The end of a transaction with no transaction around it. An abort gives back the fields of the cache,
-- which the code adds, and the allocations.
abbrev pub outcome : Pool → Tx (Unit {0}) → Option (CacheStatus × Pool)
outcome old fault = none
outcome old (aborted w) =
    some (failed, record w { cache = old.cache; cell = λ at. rolled_back (w.cell at) })
outcome old (done _ w) = some (ok, record w { cell = λ at. committed (w.cell at) })

-- TX_BEGIN to TX_END, where `luck` calls of libpmemobj succeed.
unfoldable pub transaction : ℕ → Code (Unit {0}) → Pool → Option (CacheStatus × Pool)
transaction luck body old = outcome old ((call >> body) (record old { luck = luck }))

-- A transaction within another one, after the test that returns -1. What it returns is not used.
abbrev pub nested : Code (Unit {0}) → Code (Unit {0})
nested body w = if refuses w then done tt w else (call >> body) w

-- TX_ADD_FIELD of `hashmap`, `head` and `tail`.
abbrev pub add_fields : Code (Unit {0})
add_fields = call >> (call >> call)

-- `OID_INSTANCEOF(o, struct CacheEntry)`, by the type of the object at the offset.
abbrev pub is_entry : Pool → PmemOid → Bool
is_entry w o = elim (held (w.cell o.off)) [ none ↦ false | some _ ↦ true ]

abbrev pub is_mapped : Pool → PmemOid → Bool
is_mapped w o = if oid_is_null o then false else is_entry w o

-- `*((PMEMoid*) pmemobj_direct(o))`: the first 16 octets of an entry, taken for a pointer.
abbrev pub oid_of_entry : CacheEntry → PmemOid
oid_of_entry e = record { pool_uuid_lo = e.key; off = e.value + e.padding * 2 ^ 32 }

-- `cache_delete`, within another transaction.
unfoldable pub cache_delete : PmemOid → Code (Unit {0})
unfolding call load set_next set_prev tx_free
cache_delete entry =
    nested (
      add_fields
      >> do e ← load entry; set_prev e.next e.prev; set_next e.prev e.next; tx_free entry)

module _ (a : Allocator) where
  -- `cache_add`, within another transaction.
  unfoldable pub cache_add : PmemOid → Code (Unit {0})
  unfolding call load store set_next set_prev tx_new cache_fields
  cache_add entry = nested (
      add_fields >> do
        dummy ← tx_new a
        c ← cache_fields
        head ← load c.head
        first ← load head.next
        tx_memcpy dummy first
        set_next c.head entry
        set_prev entry c.head
        set_next entry dummy
        set_prev dummy entry)

-- The transaction of `cache_get`.
unfoldable pub get_body : ℕ → Code (Unit {0})
unfolding call cache_fields load on_map read_map cache_delete
get_body key =
    call
    >> (call >> do
      mapped ← read_map (λ m. hm_tx_get m key)
      λ w.
          if is_mapped w mapped
          then (do
            removed ← on_map (λ m. hm_tx_remove true true m key)
            direct ← load mapped
            cache_delete mapped
            c ← cache_fields
            head ← load c.head
            first ← load head.next
            inserted ← on_map (λ m. hm_tx_insert true true m key (oid_of_entry first))
            pure tt)
              w
          else aborted w)

-- `cache_get`; `out` is whether `value` is a pointer. What it points to is never written.
unfoldable pub cache_get : ℕ → Pool → ℕ → Bool → Option (CacheStatus × Pool)
unfolding transaction get_body
cache_get luck w key out =
    if refuses w || not out then some (failed, w) else transaction luck (get_body key) w

-- The first `if` of `cache_set`.
unfoldable pub drop_mapped : ℕ → PmemOid → Code (Unit {0})
unfolding cache_delete on_map
drop_mapped key mapped w =
    if is_mapped w mapped
    then (do removed ← on_map (λ m. hm_tx_remove true true m key); cache_delete mapped) w
    else done tt w

-- The second one: the entry in front of the tail goes if the cache is full.
unfoldable pub evict : Code (Unit {0})
unfolding cache_delete on_map cache_fields load
evict = do
  c ← cache_fields
  count ← read_map (λ m. some (hm_tx_count m))
  λ w.
      if count == c.capacity
      then (do
        tail ← load c.tail
        last ← load tail.prev
        removed ← on_map (λ m. hm_tx_remove true true m last.key)
        tail_now ← load c.tail
        cache_delete tail_now.prev)
          w
      else done tt w

-- The third one.
unfoldable pub link_mapped : PmemOid → Code (Unit {0})
unfolding cache_fields load set_next
link_mapped mapped w =
    if is_mapped w mapped
    then (do c ← cache_fields; head ← load c.head; set_next mapped head.next) w
    else done tt w

module _ (a : Allocator) where
  -- The transaction of `cache_set`.
  unfoldable pub set_body : ℕ → ℕ → Code (Unit {0})
  unfolding call drop_mapped evict tx_new load store cache_add read_map link_mapped
  set_body key value =
      call
      >> (call >> do
        mapped ← read_map (λ m. hm_tx_get m key)
        drop_mapped key mapped
        evict
        new_entry ← tx_new a
        e ← load new_entry
        store new_entry (record e { key = key; value = value })
        cache_add a new_entry
        mapped' ← read_map (λ m. hm_tx_get m key)
        link_mapped mapped')

  unfoldable pub cache_set : ℕ → Pool → ℕ → ℕ → Option (CacheStatus × Pool)
  unfolding transaction set_body
  cache_set luck w key value =
      if refuses w then some (failed, w) else transaction luck (set_body key value) w

-- What `cache_new` depends on: whether the two addresses that are added lie in the pool, which
-- `pmemobj_tx_add_range_direct` demands, whether the allocations succeed, the transaction of
-- `create_hashmap` commits and that of `cache_new` does,
-- and what TX_NEW leaves in `head` and `tail`.
pub record Setting : Type 0 where
  pub cache_in_pool : Bool
  pub hashmap_in_pool : Bool
  pub allocates : Bool
  pub creates : Bool
  pub commits : Bool
  pub head : PmemOid
  pub tail : PmemOid

-- What `cache_new` does: it returns with a status and what `*cache` points to, or the process ends.
pub data CacheMade : Type 0 where
  returned : CacheStatus → Option Cache → CacheMade
  ended : CacheMade

-- The end of `cache_new`, on what `hm_tx_create` did. Where that one fails or its transaction aborts,
-- so does this transaction.
abbrev pub with_map : Setting → Option Cache → ℕ → Created → CacheMade
with_map s old capacity (created m) =
    if s.commits
    then returned ok
        (some (record { head = s.head; tail = s.tail; capacity = capacity; hashmap = some m }))
    else returned failed old
with_map s old capacity not_created = returned failed old
with_map s old capacity terminated = ended

-- An `int` of 32 bits as a `size_t`.
abbrev pub int_to_size : ℕ → ℕ
int_to_size n =
    if ltb (n % u32_mod) (2 ^ 31) then n % u32_mod else n % u32_mod + (u64_mod - u32_mod)

-- `cache_new` on the results that `rand()` has yet to give; `old` is what `*cache` was. The local
-- variable `hashmap` is what `hm_tx_create` adds to its transaction.
unfoldable pub cache_new : Setting → Option Cache → List ℕ → ℕ → Option (CacheMade × List ℕ)
cache_new s old rands capacity =
    if s.cache_in_pool && s.allocates
    then (elim (hm_tx_create (s.hashmap_in_pool && s.allocates) s.creates 0 rands) [
      | none ↦ none
      | some (made, rest) ↦ some (with_map s old (int_to_size capacity) made, rest)
    ])
    else some (returned failed old, rands)
