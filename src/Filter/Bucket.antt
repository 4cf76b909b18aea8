-- ===== src/Filter/Bucket.antt =====
-- src/dual_domain/filter/bucket.c: a bucket is four octets at an offset of a block of memory, the
-- one that `cf->buckets` points to. `none` is an access outside of the block.
use pmem_rts_cache.Common.{
  ℕ, zero, suc, ◌+◌, Bool, true, false, Option, none, some, List, ◌==◌, if◌then◌else◌, ◌>>=◌,
  get_elem?, set,
}

-- `BUCKET_SIZE`
abbrev pub bucket_size : ℕ
bucket_size = 4

-- The `int` results of the filter.
pub data CInt : Type 0 where
  minus_one naught plus_one : CInt

-- `if (r)`
abbrev pub truthy : CInt → Bool
truthy minus_one = true
truthy naught = false
truthy plus_one = true

-- The search of the three loops, at `i` with `left` rounds to go: the first octet that is `fp`.
unfoldable pub search_fp : ℕ → ℕ → List ℕ → ℕ → ℕ → Option (Option ℕ)
search_fp zero i mem bucket fp = some none
search_fp (suc left) i mem bucket fp = do
  octet ← get_elem? mem (bucket + i)
  let rest = search_fp left (i + 1) mem bucket fp
  if octet == fp then some (some i) else rest

-- The index, or `none` for -1.
unfoldable pub bucket_fp_index : List ℕ → ℕ → ℕ → Option (Option ℕ)
bucket_fp_index mem bucket fp = search_fp bucket_size 0 mem bucket fp

-- A write at the index found: 0, or -1 where there is none.
abbrev pub store_at : List ℕ → ℕ → Option ℕ → ℕ → CInt × List ℕ
store_at mem bucket none octet = (minus_one, mem)
store_at mem bucket (some i) octet = (naught, set mem (bucket + i) octet)

unfoldable pub bucket_insert : List ℕ → ℕ → ℕ → Option (CInt × List ℕ)
bucket_insert mem bucket fp = do
  found ← search_fp bucket_size 0 mem bucket 0
  some (store_at mem bucket found fp)

unfoldable pub bucket_delete : List ℕ → ℕ → ℕ → Option (CInt × List ℕ)
bucket_delete mem bucket fp = do
  found ← search_fp bucket_size 0 mem bucket fp
  some (store_at mem bucket found 0)

-- One octet written, inside the block.
unfoldable pub store : List ℕ → ℕ → ℕ → Option (List ℕ)
store mem i octet = do old ← get_elem? mem i; some (set mem i octet)

-- `memset(bucket->fp, 0, BUCKET_SIZE)`
unfoldable pub bucket_reset : List ℕ → ℕ → Option (List ℕ)
unfolding store
bucket_reset mem bucket = do
  m1 ← store mem bucket 0
  m2 ← store m1 (bucket + 1) 0
  m3 ← store m2 (bucket + 2) 0
  store m3 (bucket + 3) 0

-- `bucket_new`, where `mallocs` is whether the allocation succeeds. It goes to the parameter only.
abbrev pub bucket_new : Bool → CInt
bucket_new mallocs = if mallocs then naught else minus_one

-- `bucket_free`: `none` is NULL, and a bucket says whether it stands at the start of an allocated block,
-- which is what can be freed.
abbrev pub bucket_free : Option Bool → Option CInt
bucket_free none = some minus_one
bucket_free (some true) = some naught
bucket_free (some false) = none
