-- ===== src/Cache/Pool.antt =====
-- src/cache/cache.h, and what the cache does to persistent memory: its objects, and transactions that
-- may abort at any call of libpmemobj.
-- libpmemobj rolls back the objects that a transaction allocated or freed and the ranges that it
-- added. The cache adds the fields of `struct Cache` and no entry, so a write to an entry outlives an
-- abort.
use pmem_rts_cache.Common.{ℕ, zero, suc, Option, none, some, ◌==◌, if◌then◌else◌}
use pmem_rts_cache.Pmem.{PmemOid, oid_is_null}
use pmem_rts_cache.Map.Table.{HashmapTx}

-- `struct CacheEntry`. `padding` is the four octets after `_value`, which is an `int` of 32 bits.
pub record CacheEntry : Type 0 where
  pub key : ℕ
  pub value : ℕ
  pub padding : ℕ
  pub prev : PmemOid
  pub next : PmemOid

-- `struct Cache`. `hashmap` is the map that the field points to, or `none` where `hm_tx_check` refuses
-- the pointer.
pub record Cache : Type 0 where
  pub head : PmemOid
  pub tail : PmemOid
  pub capacity : ℕ
  pub hashmap : Option HashmapTx

-- What stands at an offset: no entry, one from before the transaction, one that the transaction
-- allocated, or one that it frees when it commits.
pub data Cell : Type 0 where
  vacant : Cell
  kept fresh doomed : CacheEntry → Cell

-- The pool. `luck` is the number of calls of libpmemobj that succeed before one fails; `cache` is
-- `none` for a null `TOID(struct Cache)`.
pub record Pool : Type 0 where
  pub cell : ℕ → Cell
  pub cache : Option Cache
  pub luck : ℕ

-- Code within a transaction. `fault` is undefined behaviour, such as a read through a null or dangling
-- pointer. An abort leaves the code, also that of the transactions around it.
pub data Tx (A : Type 0) : Type 0 where
  fault : Tx A
  aborted : Pool → Tx A
  done : A → Pool → Tx A

abbrev pub Code : Type 0 → Type 0
Code A = Pool → Tx A

abbrev pub pure : {A : Type 0} → A → Code A
pure a w = done a w

abbrev pub and_then : {A B : Type 0} → Tx A → (A → Code B) → Tx B
and_then fault k = fault
and_then (aborted w) k = aborted w
and_then (done a w) k = k a w

infixl 5 ◌>>=◌ ◌>>◌
abbrev pub ◌>>=◌ : {A B : Type 0} → Code A → (A → Code B) → Code B
◌>>=◌ m k w = and_then (m w) k

abbrev pub ◌>>◌ : {B : Type 0} → Code (Unit {0}) → Code B → Code B
m >> n = m >>= λ _. n

-- `pmemobj_tx_abort`
abbrev pub abort : {A : Type 0} → Code A
abort w = aborted w

-- A call of libpmemobj that may fail, such as the one of TX_BEGIN or of TX_ADD_FIELD.
unfoldable pub call : Code (Unit {0})
call w = elim w.luck [ zero ↦ aborted w | suc n ↦ done tt (record w { luck = n }) ]

-- `D_RO(cache)`
unfoldable pub cache_fields : Code Cache
cache_fields w = elim w.cache [ none ↦ fault | some c ↦ done c w ]

-- The entry that a cell holds.
abbrev pub held : Cell → Option CacheEntry
held vacant = none
held (kept e) = some e
held (fresh e) = some e
held (doomed e) = some e

-- The cell with another entry in it.
abbrev pub refilled : Cell → CacheEntry → Cell
refilled vacant e = vacant
refilled (kept _) e = kept e
refilled (fresh _) e = fresh e
refilled (doomed _) e = doomed e

abbrev pub update : (ℕ → Cell) → ℕ → Cell → ℕ → Cell
update cell off c at = if at == off then c else cell at

abbrev pub entry_at : Pool → PmemOid → Option CacheEntry
entry_at w o = if oid_is_null o then none else held (w.cell o.off)

-- `*D_RO(o)`
unfoldable pub load : PmemOid → Code CacheEntry
load o w = elim (entry_at w o) [ none ↦ fault | some e ↦ done e w ]

-- `*D_RW(o) = e`
unfoldable pub store : PmemOid → CacheEntry → Code (Unit {0})
store o e w = elim (entry_at w o) [
  | none ↦ fault
  | some _ ↦ done tt (record w { cell = update w.cell o.off (refilled (w.cell o.off) e) })
]

unfoldable pub set_next : PmemOid → PmemOid → Code (Unit {0})
unfolding load store
set_next o next = do e ← load o; store o (record e { next = next })

unfoldable pub set_prev : PmemOid → PmemOid → Code (Unit {0})
unfolding load store
set_prev o prev = do e ← load o; store o (record e { prev = prev })

-- `TX_MEMCPY(D_RW(o), e, sizeof(struct CacheEntry))`
abbrev pub tx_memcpy : PmemOid → CacheEntry → Code (Unit {0})
tx_memcpy o e = call >> store o e

-- A cell after TX_FREE; `none` where it holds nothing that can be freed.
abbrev pub freed : Cell → Option Cell
freed vacant = none
freed (kept e) = some (doomed e)
freed (fresh e) = some vacant
freed (doomed e) = none

-- TX_FREE
unfoldable pub tx_free : PmemOid → Code (Unit {0})
tx_free o = call >> λ w. elim (freed (w.cell o.off)) [
  | none ↦ fault
  | some c ↦ done tt (record w { cell = update w.cell o.off c })
]

-- What libpmemobj decides when it allocates: the place, and what the memory holds that TX_NEW does not
-- set.
pub record Allocator : Type 0 where
  pub place : (ℕ → Cell) → PmemOid
  pub unset : CacheEntry

-- `TX_NEW(struct CacheEntry)`
unfoldable pub tx_new : Allocator → Code PmemOid
tx_new a = call >> λ w.
    let o = a.place w.cell in done o (record w { cell = update w.cell o.off (fresh a.unset) })

module _ {A : Type 0} (f : HashmapTx → Option (A × HashmapTx)) where
  abbrev pub map_replied : Pool → Cache → Option (A × HashmapTx) → Tx A
  map_replied w c none = fault
  map_replied w c (some (a, m)) = done a (record w { cache = some (record c { hashmap = some m }) })

  abbrev pub map_called : Pool → Cache → Option HashmapTx → Tx A
  map_called w c none = fault
  map_called w c (some m) = map_replied w c (f m)

  -- A call of the hash map on the field `hashmap`. That its transactions commit is the success of the
  -- call; where they do not, the transaction around them aborts.
  unfoldable pub on_map : Code A
  unfolding cache_fields
  on_map = call >> (cache_fields >>= λ c w. map_called w c c.hashmap)

-- A read of the hash map.
unfoldable pub read_map : {A : Type 0} → (HashmapTx → Option A) → Code A
unfolding cache_fields
read_map f = do
  c ← cache_fields
  λ w. elim c.hashmap [ none ↦ fault | some m ↦ elim (f m) [ none ↦ fault | some a ↦ done a w ] ]

-- The cells after a commit, and after an abort.
abbrev pub committed : Cell → Cell
committed vacant = vacant
committed (kept e) = kept e
committed (fresh e) = kept e
committed (doomed e) = vacant

abbrev pub rolled_back : Cell → Cell
rolled_back vacant = vacant
rolled_back (kept e) = kept e
rolled_back (fresh e) = vacant
rolled_back (doomed e) = kept e
