-- ===== src/Map/Memory.antt =====
-- src/map/hashmap_tx.c: the transactions of `hm_tx_insert` and `hm_tx_remove` on words of memory, statement by
-- statement. `struct hashmap_tx` has `count` at word 3 and `buckets` at words 4 and 5, `struct buckets` two
-- words for each of `bucket` from word 1 on, and `struct entry` has `key` at word 0, `value` at words 1 and
-- 2 and `next` at words 3 and 4.
use pmem_rts_cache.Common.{ℕ, ◌+◌, ◌-◌, ◌*◌, ◌%◌, if◌then◌else◌}
use pmem_rts_cache.Pmem.{PmemOid, oid_is_null, u64_mod}
use pmem_rts_cache.Pmem.Undo.{
  Code, ◌>>=◌, ◌>>◌, tx_call, deref, word_at, peek, poke, peek_oid, poke_oid, tx_add, Heap,
  tx_alloc, tx_free_object,
}

abbrev pub bucket_word : ℕ → ℕ
bucket_word h = 1 + 2 * h

-- `D_RO(hashmap)->buckets`
unfoldable pub read_buckets : PmemOid → Code PmemOid
unfolding deref peek_oid
read_buckets hashmap = do deref hashmap; peek_oid (word_at hashmap 4)

-- The transaction of `hm_tx_insert` after its TX_ADD_FIELDs; `buckets` is the local variable.
unfoldable pub insert_writes : Heap → PmemOid → PmemOid → ℕ → ℕ → PmemOid → Code (Unit {0})
unfolding deref peek poke peek_oid poke_oid tx_alloc
insert_writes heap hashmap buckets h key value = do
  e ← tx_alloc heap heap.unset 5
  deref e
  poke (word_at e 0) key
  poke_oid (word_at e 1) value
  deref buckets
  first ← peek_oid (word_at buckets (bucket_word h))
  poke_oid (word_at e 3) first
  poke_oid (word_at buckets (bucket_word h)) e
  count ← peek (word_at hashmap 3)
  poke (word_at hashmap 3) ((count + 1) % u64_mod)

-- The first line of `hm_tx_insert`, and from TX_BEGIN to TX_ONABORT; `h` is what `hash` returns.
unfoldable pub insert_tx : Heap → PmemOid → ℕ → ℕ → PmemOid → Code (Unit {0})
unfolding read_buckets tx_call deref tx_add insert_writes
insert_tx heap hashmap h key value = do
  buckets ← read_buckets hashmap
  tx_call
  added ← read_buckets hashmap
  deref added
  tx_add (word_at added (bucket_word h)) 2
  deref hashmap
  tx_add (word_at hashmap 3) 1
  insert_writes heap hashmap buckets h key value

-- The count and the entry of the transaction of `hm_tx_remove`.
unfoldable pub remove_entry : PmemOid → PmemOid → Code (Unit {0})
unfolding peek poke tx_free_object
remove_entry hashmap var = do
  count ← peek (word_at hashmap 3)
  poke (word_at hashmap 3) ((count + u64_mod - 1) % u64_mod)
  tx_free_object var

-- What it writes to `next`, or to the head of the bucket, at the word `link`.
unfoldable pub relink : ℕ → PmemOid → Code (Unit {0})
unfolding deref peek_oid poke_oid
relink link var = do deref var; next ← peek_oid (word_at var 3); poke_oid link next

-- From TX_BEGIN to TX_ONABORT of `hm_tx_remove`, where `prev` is null and where it is not.
unfoldable pub remove_first : PmemOid → PmemOid → ℕ → PmemOid → Code (Unit {0})
unfolding read_buckets tx_call deref tx_add relink remove_entry
remove_first hashmap buckets h var = do
  tx_call
  added ← read_buckets hashmap
  deref added
  tx_add (word_at added (bucket_word h)) 2
  deref hashmap
  tx_add (word_at hashmap 3) 1
  deref buckets
  relink (word_at buckets (bucket_word h)) var
  remove_entry hashmap var

unfoldable pub remove_later : PmemOid → PmemOid → PmemOid → Code (Unit {0})
unfolding tx_call deref tx_add relink remove_entry
remove_later hashmap prev var = do
  tx_call
  deref prev
  tx_add (word_at prev 3) 2
  deref hashmap
  tx_add (word_at hashmap 3) 1
  relink (word_at prev 3) var
  remove_entry hashmap var

-- The first line of `hm_tx_remove` and its transaction; `h` is what `hash` returns, and `prev` and `var`
-- are what its loop ends with.
unfoldable pub remove_tx : PmemOid → ℕ → PmemOid → PmemOid → Code (Unit {0})
unfolding read_buckets remove_first remove_later
remove_tx hashmap h prev var = do
  buckets ← read_buckets hashmap
  if oid_is_null prev then remove_first hashmap buckets h var else remove_later hashmap prev var
