-- ===== src/Filter/Deletion.antt =====
-- src/dual_domain/filter/cuckoo_filter.c: `cf_delete` of whole keys.
use pmem_rts_cache.Common.{
  ℕ, ◌+◌, ◌-◌, ◌≤◌, ◌<◌, ◌≡◌, refl, ◌∙◌, ap, Bool, some, List, get_or, set, length, length-set,
}
use pmem_rts_cache.Hashing.FnvLaws.{AllOctets}
use pmem_rts_cache.Filter.Bucket.{CInt, naught, plus_one, bucket_size}
use pmem_rts_cache.Filter.Util.{Undefined, Tables}
use pmem_rts_cache.Filter.Indices.{IsInit}
use pmem_rts_cache.Filter.Cuckoo.{
  CuckooFilter, index_bucket, key_place, cf_delete_internal, cf_delete,
}
use pmem_rts_cache.Filter.Outcomes.{HasBlock, Deletes, cleared, missing, cf_delete_internal_lem}
use pmem_rts_cache.Filter.Keys.{Place, HasNot, IsPlace, IsPlace-total, power_fits}

-- What `cf_delete` does. It stops, with the key taken from a positive count, where the first bucket of
-- the key has not its fingerprint, and never looks at the second. Else it clears a slot of the first
-- bucket, and one of the second as well if that has the fingerprint then.
pub data DeletesKey (cf : CuckooFilter) (mem : List ℕ) (at : Place cf.bucket_power)
    (r : CInt × CuckooFilter) : Type 0 where
  skipped :
      HasNot mem at.first at.fp
      → r ≡ (plus_one, record cf { count = cf.count - 1; buckets = some mem })
      → DeletesKey cf mem at r
  cleared_one :
      (j : ℕ)
      → j < bucket_size
      → get_or mem (index_bucket at.first + j) 0 ≡ at.fp
      → HasNot (set mem (index_bucket at.first + j) 0) at.second at.fp
      → r ≡ (
        plus_one,
        record cf { count = cf.count - 1; buckets = some (set mem (index_bucket at.first + j) 0) },
      )
      → DeletesKey cf mem at r
  cleared_two :
      (j k : ℕ)
      → j < bucket_size
      → k < bucket_size
      → get_or mem (index_bucket at.first + j) 0 ≡ at.fp
      → get_or (set mem (index_bucket at.first + j) 0) (index_bucket at.second + k) 0 ≡ at.fp
      → r ≡ (
        naught,
        record cf {
          buckets =
              some (set (set mem (index_bucket at.first + j) 0) (index_bucket at.second + k) 0);
        },
      )
      → DeletesKey cf mem at r

second-DeletesKey :
    (cf : CuckooFilter) (mem : List ℕ) (at : Place cf.bucket_power) (j : ℕ)
    → j < bucket_size
    → get_or mem (index_bucket at.first + j) 0 ≡ at.fp
    → (r : CInt × CuckooFilter)
    → Deletes
        (record cf { buckets = some (set mem (index_bucket at.first + j) 0) })
        (set mem (index_bucket at.first + j) 0)
        at.fp
        at.second
        r
    → DeletesKey cf mem at r
second-DeletesKey cf mem at j h e r (cleared k q f same) = cleared_two j k h q e f same
second-DeletesKey cf mem at j h e r (missing n same) = cleared_one j h e n same

module _ (t : Tables) (u : Undefined) (plain : Bool) (cf : CuckooFilter) where
  module _ (mem key : List ℕ) (len : ℕ) (ready : IsInit t) (v : HasBlock cf mem)
      (small : cf.bucket_power ≤ 30) (os : AllOctets key) (fits : len ≤ length key) where
    -- The filter itself, with its block written out.
    blocked : CuckooFilter
    blocked = record cf { buckets = some mem }

    delete_after :
        (at : Place cf.bucket_power)
        → IsPlace t u plain cf key len at
        → (r1 : CInt × CuckooFilter) → cf_delete_internal blocked at.fp at.first ≡ some r1
        → Deletes blocked mem at.fp at.first r1
        → (r : CInt × CuckooFilter) × (cf_delete t u plain blocked key len ≡ some r)
          × DeletesKey cf mem at r
    unfolding blocked cf_delete key_place
    delete_after at is r1 ran (missing n same) = (
      (plus_one, record cf { count = cf.count - 1; buckets = some mem }),
      rw (power_fits cf.bucket_power small, is.placed, ran ∙ ap some same) refl,
      skipped n refl,
    )
    delete_after at is r1 ran (cleared j h e same) =
        let mem1 = set mem (index_bucket at.first + j) 0 in
        let cf1 = record cf { buckets = some mem1 } in
        let v1 : HasBlock cf1 mem1 = record {
          block = refl;
          width = length-set mem (index_bucket at.first + j) 0 ∙ v.width;
        } in
        let (r, ran2, d) = cf_delete_internal_lem cf1 mem1 at.fp at.second v1 at.second_fits in
        let fit = power_fits cf.bucket_power small in
        (
          r,
          rw (fit, is.placed, ran ∙ ap some same, fit, is.other, ran2) refl,
          second-DeletesKey cf mem at j h e r d,
        )

    -- With the tables initialised, `cf_delete` of a key within its buffer stays in the block of a filter
    -- of at most 2 ^ 30 buckets. Where the first bucket of the key has not its fingerprint, it returns 1
    -- and clears nothing, whatever the second bucket has. Else it clears a slot of the first bucket, and
    -- one of the second too if that has the fingerprint then: it returns 0 if so, and 1 otherwise.
    -- Where it returns 1, it takes one from a positive count.
    pub cf_delete_lem :
        (at : Place cf.bucket_power) × IsPlace t u plain cf key len at
        × (r : CInt × CuckooFilter) × (cf_delete t u plain cf key len ≡ some r)
        × DeletesKey cf mem at r
    unfolding blocked
    cf_delete_lem =
        let (at, is) = IsPlace-total t u plain cf mem key len ready v small os fits in
        let (r1, ran, d) =
          cf_delete_internal_lem blocked mem at.fp at.first
            (record { block = refl; width = v.width }) at.first_fits in
        let (r, ran2, d2) = delete_after at is r1 ran d in
        let same : cf ≡ blocked = ap (λ b. record cf { buckets = b }) v.block in
        (at, is, r, ap (λ c. cf_delete t u plain c key len) same ∙ ran2, d2)
