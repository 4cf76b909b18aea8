-- ===== src/Filter/Outcomes.antt =====
-- src/dual_domain/filter/cuckoo_filter.c: what `cf_insert_internal` and `cf_delete_internal` return and
-- change.
use pmem_rts_cache.Common.{
  ℕ, ◌+◌, ◌-◌, ◌*◌, ◌%◌, ◌^◌, ◌≤◌, ◌<◌, ◌≡◌, ◌≢◌, refl, ◌-◌, ◌∙◌, ap, Bool, true, false, not, none,
  some, List, ◌==◌, if◌then◌else◌, ◌>>=◌, get_or, get_elem?-eq-get_or, set, length, ltb, arith,
}
use pmem_rts_cache.Pmem.{u64_mod}
use pmem_rts_cache.Filter.Bucket.{plus_one, CInt, naught, bucket_size}
use pmem_rts_cache.Filter.BucketLaws.{
  Writes, wrote, full, bucket_insert-Writes, bucket_delete-Writes,
}
use pmem_rts_cache.Filter.Cuckoo.{
  CuckooFilter, pointer_set, index_bucket, counted_insert, insert_where, cf_insert_internal,
  counted_delete, cf_delete_internal,
}

-- The filter has the block `mem`, of the size that `cf_new` allocates for its number of buckets.
pub record HasBlock (cf : CuckooFilter) (mem : List ℕ) : Type 0 where
  pub block : cf.buckets ≡ some mem
  pub width : length mem ≡ 8 * 2 ^ cf.bucket_power

pointer_set-total :
    (mem : List ℕ) (idx : ℕ)
    → 8 * idx + 8 ≤ length mem
    → (b : Bool) × (pointer_set mem idx ≡ some b)
unfolding pointer_set
pointer_set-total mem idx h = (
  not (
      get_or mem (8 * idx) 0
        + get_or mem (8 * idx + 1) 0
        + get_or mem (8 * idx + 2) 0
        + get_or mem (8 * idx + 3) 0
        + get_or mem (8 * idx + 4) 0
        + get_or mem (8 * idx + 5) 0
        + get_or mem (8 * idx + 6) 0
        + get_or mem (8 * idx + 7) 0
      == 0),
  rw
      (
        get_elem?-eq-get_or mem (8 * idx) 0 (omega arith),
        get_elem?-eq-get_or mem (8 * idx + 1) 0 (omega arith),
        get_elem?-eq-get_or mem (8 * idx + 2) 0 (omega arith),
        get_elem?-eq-get_or mem (8 * idx + 3) 0 (omega arith),
        get_elem?-eq-get_or mem (8 * idx + 4) 0 (omega arith),
        get_elem?-eq-get_or mem (8 * idx + 5) 0 (omega arith),
        get_elem?-eq-get_or mem (8 * idx + 6) 0 (omega arith),
        get_elem?-eq-get_or mem (8 * idx + 7) 0 (omega arith),
        ◌>>=◌,
      )
      refl,
)

-- What `cf_insert_internal` does to bucket `i` of a filter with the block `mem`: nothing where the
-- pointer is null, else it writes the fingerprint to an empty slot and returns 0, or returns 1 and
-- counts a fingerprint that it has not stored.
pub data Inserts (cf : CuckooFilter) (mem : List ℕ) (fp i : ℕ) (r : CInt × CuckooFilter)
    : Type 0 where
  null : pointer_set mem i ≡ some false → r ≡ (naught, cf) → Inserts cf mem fp i r
  stored :
      (j : ℕ)
      → pointer_set mem i ≡ some true
      → j < bucket_size
      → get_or mem (index_bucket i + j) 0 ≡ 0
      → r ≡ (naught, record cf { buckets = some (set mem (index_bucket i + j) fp) })
      → Inserts cf mem fp i r
  no_room :
      pointer_set mem i ≡ some true
      → ((k : ℕ) → k < bucket_size → get_or mem (index_bucket i + k) 0 ≢ 0)
      → r ≡ (plus_one, record cf { count = (cf.count + 1) % u64_mod; buckets = some mem })
      → Inserts cf mem fp i r

counted_insert-Inserts :
    (cf : CuckooFilter) (mem : List ℕ) (fp i : ℕ) (r : CInt × List ℕ)
    → pointer_set mem i ≡ some true
    → Writes mem (index_bucket i) 0 fp r
    → Inserts cf mem fp i (counted_insert cf r)
counted_insert-Inserts cf mem fp i r set_there (wrote j p e f) =
    stored j set_there p e (ap (counted_insert cf) f)
counted_insert-Inserts cf mem fp i r set_there (full n f) =
    no_room set_there n (ap (counted_insert cf) f)

-- What `cf_delete_internal` does: it clears a slot with the fingerprint and returns 0, or returns 1
-- and takes one from a positive count for a fingerprint that the bucket does not have.
pub data Deletes (cf : CuckooFilter) (mem : List ℕ) (fp i : ℕ) (r : CInt × CuckooFilter)
    : Type 0 where
  cleared :
      (j : ℕ)
      → j < bucket_size
      → get_or mem (index_bucket i + j) 0 ≡ fp
      → r ≡ (naught, record cf { buckets = some (set mem (index_bucket i + j) 0) })
      → Deletes cf mem fp i r
  missing :
      ((k : ℕ) → k < bucket_size → get_or mem (index_bucket i + k) 0 ≢ fp)
      → r ≡ (plus_one, record cf { count = cf.count - 1; buckets = some mem })
      → Deletes cf mem fp i r

floor : (n : ℕ) → (if ltb 0 n then n - 1 else n) ≡ n - 1
floor n = ground arith

counted_delete-Deletes :
    (cf : CuckooFilter) (mem : List ℕ) (fp i : ℕ) (r : CInt × List ℕ)
    → Writes mem (index_bucket i) fp 0 r
    → Deletes cf mem fp i (counted_delete cf r)
counted_delete-Deletes cf mem fp i r (wrote j p e f) = cleared j p e (ap (counted_delete cf) f)
counted_delete-Deletes cf mem fp i r (full n f) = missing n (
    ap (counted_delete cf) f
    ∙ ap (λ c. (plus_one, record cf { count = c; buckets = some mem })) (floor cf.count))

-- `cf_delete_internal` on a bucket of the filter does not fault. It returns 0 where it cleared a slot
-- that had the fingerprint, and leaves the count; it returns 1 where no slot has it, and then takes
-- one from a positive count.
pub cf_delete_internal_lem :
    (cf : CuckooFilter) (mem : List ℕ) (fp i : ℕ)
    → HasBlock cf mem
    → i < 2 ^ cf.bucket_power
    → (r : CInt × CuckooFilter) × (cf_delete_internal cf fp i ≡ some r) × Deletes cf mem fp i r
unfolding cf_delete_internal
cf_delete_internal_lem cf mem fp i v h =
    let (r, run, w) = bucket_delete-Writes mem (index_bucket i) fp (rw (v.width) (omega arith)) in
    (counted_delete cf r, rw (v.block, run, ◌>>=◌) refl, counted_delete-Deletes cf mem fp i r w)

insert_where-Inserts :
    (cf : CuckooFilter) (mem : List ℕ) (fp i : ℕ) (present : Bool)
    → pointer_set mem i ≡ some present
    → index_bucket i + bucket_size ≤ length mem
    → (r : CInt × CuckooFilter) × (insert_where present cf mem fp i ≡ some r)
      × Inserts cf mem fp i r
unfolding insert_where
insert_where-Inserts cf mem fp i false reads h = ((naught, cf), refl, null reads refl)
insert_where-Inserts cf mem fp i true reads h =
    let (r, run, w) = bucket_insert-Writes mem (index_bucket i) fp h in
    (counted_insert cf r, rw (run, ◌>>=◌) refl, counted_insert-Inserts cf mem fp i r reads w)

pub cf_insert_internal_lem :
    (cf : CuckooFilter) (mem : List ℕ) (fp i : ℕ)
    → HasBlock cf mem
    → i < 2 ^ cf.bucket_power
    → (r : CInt × CuckooFilter) × (cf_insert_internal cf fp i ≡ some r) × Inserts cf mem fp i r
unfolding cf_insert_internal
cf_insert_internal_lem cf mem fp i v h =
    let (present, reads) = pointer_set-total mem i (rw (v.width) (omega arith)) in
    let (r, run, d) = insert_where-Inserts cf mem fp i present reads (rw (v.width) (omega arith)) in
    (
      r,
      ap
            (λ o. elim o [
              | none ↦ some (naught, cf)
              | some block ↦ do p ← pointer_set block i; insert_where p cf block fp i
            ])
            v.block
          ∙ rw (reads, ◌>>=◌) run,
      d,
    )
