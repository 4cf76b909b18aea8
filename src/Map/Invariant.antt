-- ===== src/Map/Invariant.antt =====
-- src/map/hashmap_tx.c: the invariant of the hash map, and the abstract map that it stands for.
use pmem_rts_cache.Common.{
  ℕ, ◌+◌, ◌*◌, ◌%◌, ◌^◌, ◌≤◌, ◌<◌, ◌≡◌, ◌≢◌, Option, some, [], length, flatten, arith, get_elem?,
  get_or, get_elem?-eq-get_or,
}
use pmem_rts_cache.Pmem.{PmemOid, u64_mod, u32_mod}
use pmem_rts_cache.Map.Table.{Chain, HashmapTx, Buckets, hash, hash_func_coeff_p}
use pmem_rts_cache.Map.Rows.{IsPlaced, view}

-- The row of a key among `n` rows, for a map with the coefficients of `m`.
unfoldable pub home : HashmapTx → ℕ → ℕ → ℕ
home m n q = (m.hash_fun_a * q + m.hash_fun_b) % u64_mod % m.hash_fun_p % n

pub home-lt : (m : HashmapTx) (n q : ℕ) → 0 < n → home m n q < n
unfolding home
home-lt m n q h = omega arith

pub hash-home :
    (m : HashmapTx) (bs : Buckets) (q : ℕ)
    → m.hash_fun_p ≢ 0
    → 0 < bs.nbuckets
    → hash m bs q ≡ some (home m bs.nbuckets q)
unfolding hash home
hash-home m bs q p pos = ground arith

-- `small` holds since libpmemobj allocates no larger table.
pub record IsValid (m : HashmapTx) : Type 0 where
  pub width : length m.buckets.bucket ≡ m.buckets.nbuckets
  pub pos : 0 < m.buckets.nbuckets
  pub small : m.buckets.nbuckets ≤ 2 ^ 30
  pub prime : m.hash_fun_p ≡ hash_func_coeff_p
  pub scale : (m.hash_fun_a ≢ 0) × (m.hash_fun_a < u32_mod) × (m.hash_fun_b < u32_mod)
  pub counted : length (flatten m.buckets.bucket) ≡ m.count
  pub counts : m.count < u64_mod
  pub placed : IsPlaced (home m m.buckets.nbuckets) m.buckets.bucket

-- The abstract map: the value under each key.
abbrev pub contents : HashmapTx → ℕ → Option PmemOid
contents m = view (home m m.buckets.nbuckets) m.buckets.bucket

-- `m'` is a valid table of the same map as `m`.
pub record IsSameMap (m m' : HashmapTx) : Type 0 where
  pub valid : IsValid m'
  pub count : m'.count ≡ m.count
  pub reads : (q : ℕ) → contents m' q ≡ contents m q

-- The row that a key belongs to.
abbrev pub row_of : HashmapTx → ℕ → Chain
row_of m q = get_or m.buckets.bucket (home m m.buckets.nbuckets q) []

-- The reads that every operation begins with do not fault.
pub hash_valid :
    {m : HashmapTx} (q : ℕ)
    → IsValid m
    → (hash m m.buckets q ≡ some (home m m.buckets.nbuckets q))
      × (get_elem? m.buckets.bucket (home m m.buckets.nbuckets q) ≡ some (row_of m q))
hash_valid {m} q v = (
  hash-home m m.buckets q (omega arith) v.pos,
  get_elem?-eq-get_or m.buckets.bucket _ [] (omega (arith, home-lt m m.buckets.nbuckets q v.pos)),
)
