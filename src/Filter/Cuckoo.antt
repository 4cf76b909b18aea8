-- ===== src/Filter/Cuckoo.antt =====
-- src/dual_domain/filter/cuckoo_filter.c: the filter over its block of memory.
-- `cf->buckets` is declared `Bucket**` and allocated as an array of pointers of eight octets, but
-- `index_bucket` takes it for an array of buckets of four: bucket `i` is the four octets from `4 i`
-- on, and the pointer `cf->buckets[i]` the eight from `8 i` on. `none` is undefined behaviour. A NULL
-- filter is not modelled: each operation returns at once on it, as on a filter with no block.
use pmem_rts_cache.Common.{
  ℕ, zero, suc, ◌+◌, ◌-◌, ◌*◌, ◌/◌, ◌%◌, ◌^◌, Bool, true, false, not, Option, none, some, List, [],
  ◌∷◌, ltb, ◌==◌, if◌then◌else◌, ◌>>=◌, get_elem?, replicate, bit_or,
}
use pmem_rts_cache.Pmem.{u32_mod, u64_mod}
use pmem_rts_cache.Filter.Bucket.{
  CInt, minus_one, naught, plus_one, truthy, bucket_size, bucket_fp_index, bucket_insert,
  bucket_delete, store, bucket_reset,
}
use pmem_rts_cache.Filter.Util.{Undefined, Tables, IndexFp, index_and_fingerprint, alt_index}

-- `struct CuckooFilter`; `buckets` is the block, or `none` for NULL.
pub record CuckooFilter : Type 0 where
  pub count : ℕ
  pub bucket_power : ℕ
  pub buckets : Option (List ℕ)

-- `n |= n >> k`
abbrev pub smear : ℕ → ℕ → ℕ
smear k n = bit_or n (n / 2 ^ k)

-- `next_pow_2`, in 64 bits, cut to 32.
unfoldable pub next_pow_2 : ℕ → ℕ
next_pow_2 n =
    (smear 32 (smear 16 (smear 8 (smear 4 (smear 2 (smear 1 ((n + u64_mod - 1) % u64_mod)))))) + 1)
    % u64_mod
    % u32_mod

-- The loop of `trailing_zeros` at `i`, with `left` rounds to go.
unfoldable pub count_zeros : ℕ → ℕ → ℕ → ℕ → ℕ
count_zeros zero i num count = count
count_zeros (suc left) i num count =
    let rest = count_zeros left (i + 1) num (count + 1) in
    if num / 2 ^ i % 2 == 1 then count else rest

unfoldable pub trailing_zeros : ℕ → ℕ
trailing_zeros num = count_zeros 32 0 num 0

-- The number of pointers that `cf_new` allocates.
unfoldable pub bucket_count : ℕ → ℕ
bucket_count capacity = let n = next_pow_2 capacity / bucket_size in if n == 0 then 1 else n

-- `cf_new`: the result and the filter that it builds. The parameter `cf` is overwritten, so that the
-- caller's filter stays as it is. A failed `calloc` is read before it is tested for.
unfoldable pub cf_new : Bool → Bool → ℕ → Option (CInt × Option CuckooFilter)
cf_new mallocs callocs capacity =
    let n = bucket_count capacity in
    if mallocs
    then (if callocs
        then some (
          naught,
          some (record {
            count = 0;
            bucket_power = trailing_zeros n;
            buckets = some (replicate (n * 8) 0);
          }),
        )
        else none)
    else some (minus_one, none)

-- `cf->buckets[idx] != NULL`
unfoldable pub pointer_set : List ℕ → ℕ → Option Bool
pointer_set mem idx = do
  a ← get_elem? mem (8 * idx)
  b ← get_elem? mem (8 * idx + 1)
  c ← get_elem? mem (8 * idx + 2)
  d ← get_elem? mem (8 * idx + 3)
  e ← get_elem? mem (8 * idx + 4)
  f ← get_elem? mem (8 * idx + 5)
  g ← get_elem? mem (8 * idx + 6)
  h ← get_elem? mem (8 * idx + 7)
  some (not (a + b + c + d + e + f + g + h == 0))

-- `index_bucket`: the offset of a bucket in the block.
abbrev pub index_bucket : ℕ → ℕ
index_bucket idx = 4 * idx

-- The end of `cf_insert_internal`: a bucket is counted where `bucket_insert` returned -1.
abbrev pub counted_insert : CuckooFilter → CInt × List ℕ → CInt × CuckooFilter
counted_insert cf (r, mem) =
    if truthy r
    then (plus_one, record cf { count = (cf.count + 1) % u64_mod; buckets = some mem })
    else (naught, record cf { buckets = some mem })

-- What follows the test of the pointer.
unfoldable pub insert_where : Bool → CuckooFilter → List ℕ → ℕ → ℕ → Option (CInt × CuckooFilter)
insert_where false cf mem fp idx = some (naught, cf)
insert_where true cf mem fp idx = do
  r ← bucket_insert mem (index_bucket idx) fp
  some (counted_insert cf r)

unfoldable pub cf_insert_internal : CuckooFilter → ℕ → ℕ → Option (CInt × CuckooFilter)
unfolding insert_where
cf_insert_internal cf fp idx = elim cf.buckets [
  | none ↦ some (naught, cf)
  | some mem ↦ do present ← pointer_set mem idx; insert_where present cf mem fp idx
]

-- `CF_MAX_BUCKET_KICK_OUT`
abbrev pub cf_max_bucket_kick_out : ℕ
cf_max_bucket_kick_out = 10

-- The end of `cf_delete_internal`: a deletion is counted where `bucket_delete` returned -1.
abbrev pub counted_delete : CuckooFilter → CInt × List ℕ → CInt × CuckooFilter
counted_delete cf (r, mem) =
    if truthy r
    then (
      plus_one,
      record cf { count = (if ltb 0 cf.count then cf.count - 1 else cf.count); buckets = some mem },
    )
    else (naught, record cf { buckets = some mem })

-- The address that `cf_delete_internal` compares with NULL lies in the block.
unfoldable pub cf_delete_internal : CuckooFilter → ℕ → ℕ → Option (CInt × CuckooFilter)
cf_delete_internal cf fp i = elim cf.buckets [
  | none ↦ some (naught, cf)
  | some mem ↦ do r ← bucket_delete mem (index_bucket i) fp; some (counted_delete cf r)
]

module _ (t : Tables) where
  -- The body of the loop of `cf_reinsert` at a result `r` of `rand()`: the slot drawn is given `fp`
  -- itself, and `fp` is tried again in the other bucket.
  unfoldable pub kick_once : ℕ → CuckooFilter → List ℕ → ℕ → ℕ → Option (CInt × CuckooFilter × ℕ)
  kick_once r cf mem fp i = do
    mem' ← store mem (index_bucket i + r % u32_mod % bucket_size) fp
    i' ← alt_index t fp i (cf.bucket_power % u32_mod)
    (done, cf') ← cf_insert_internal (record cf { buckets = some mem' }) fp i'
    some (done, cf', i')

  -- The loop of `cf_reinsert`, with `left` rounds to go, on the results that `rand()` has yet to
  -- give.
  unfoldable pub cf_reinsert : ℕ → List ℕ → CuckooFilter → ℕ → ℕ → Option (CInt × CuckooFilter)
  cf_reinsert zero rands cf fp i = some (naught, cf)
  cf_reinsert (suc left) [] cf fp i = none
  cf_reinsert (suc left) (r ∷ rands) cf fp i = elim cf.buckets [
    | none ↦ some (naught, cf)
    | some mem ↦ do
      (done, cf', i') ← kick_once r cf mem fp i
      elim (truthy done) [ true ↦ some (plus_one, cf') | false ↦ cf_reinsert left rands cf' fp i' ]
  ]

  module _ (u : Undefined) (plain : Bool) where
    unfoldable pub key_place : CuckooFilter → List ℕ → ℕ → Option IndexFp
    key_place cf key len = index_and_fingerprint u plain t key len (cf.bucket_power % u32_mod)

    -- `cf_lookup`: 1, 0, or -1 for a filter with no block.
    unfoldable pub cf_lookup : CuckooFilter → List ℕ → ℕ → Option CInt
    cf_lookup cf key len = elim cf.buckets [
      | none ↦ some minus_one
      | some mem ↦ do
        ifp ← key_place cf key len
        found ← bucket_fp_index mem (index_bucket ifp.indices) ifp.fp
        elim found [
          | some i ↦ some plus_one
          | none ↦ do
            index2 ← alt_index t ifp.fp ifp.indices (cf.bucket_power % u32_mod)
            found2 ← bucket_fp_index mem (index_bucket index2) ifp.fp
            some (elim found2 [ some i ↦ plus_one | none ↦ naught ])
        ]
    ]

    -- `cf_insert`; `heads` is what `rand_bool()` returns.
    unfoldable pub cf_insert :
        Bool → List ℕ → CuckooFilter → List ℕ → ℕ → Option (CInt × CuckooFilter)
    cf_insert heads rands cf key len = elim cf.buckets [
      | none ↦ some (minus_one, cf)
      | some mem ↦ do
        ifp ← key_place cf key len
        (r1, cf1) ← cf_insert_internal cf ifp.fp ifp.indices
        elim (truthy r1) [
          | true ↦ some (naught, cf1)
          | false ↦ do
            index2 ← alt_index t ifp.fp ifp.indices (cf.bucket_power % u32_mod)
            (r2, cf2) ← cf_insert_internal cf1 ifp.fp index2
            elim (truthy r2) [
              | true ↦ some (naught, cf2)
              | false ↦
                  cf_reinsert cf_max_bucket_kick_out rands cf2 ifp.fp
                    (if heads then ifp.indices else index2)
            ]
        ]
    ]

    unfoldable pub cf_insert_unique :
        Bool → List ℕ → CuckooFilter → List ℕ → ℕ → Option (CInt × CuckooFilter)
    cf_insert_unique heads rands cf key len = do
      found ← cf_lookup cf key len
      elim (truthy found) [ true ↦ some (naught, cf) | false ↦ cf_insert heads rands cf key len ]

    unfoldable pub cf_delete : CuckooFilter → List ℕ → ℕ → Option (CInt × CuckooFilter)
    cf_delete cf key len = elim cf.buckets [
      | none ↦ some (minus_one, cf)
      | some mem ↦ do
        ifp ← key_place cf key len
        (r1, cf1) ← cf_delete_internal cf ifp.fp ifp.indices
        elim (truthy r1) [
          | true ↦ some (plus_one, cf1)
          | false ↦ do
            index2 ← alt_index t ifp.fp ifp.indices (cf.bucket_power % u32_mod)
            cf_delete_internal cf1 ifp.fp index2
        ]
    ]

-- `cf_reset` resets `BUCKET_SIZE` buckets.
unfoldable pub cf_reset : CuckooFilter → Option (CInt × CuckooFilter)
cf_reset cf = elim cf.buckets [
  | none ↦ some (minus_one, cf)
  | some mem ↦ do
    m0 ← bucket_reset mem (index_bucket 0)
    m1 ← bucket_reset m0 (index_bucket 1)
    m2 ← bucket_reset m1 (index_bucket 2)
    m3 ← bucket_reset m2 (index_bucket 3)
    some (naught, record cf { count = 0; buckets = some m3 })
]
