-- ===== src/Examples/FilterCalls.antt =====
-- src/dual_domain/filter: whole keys in a filter of one bucket and one of two, and in a list of filters.
use pmem_rts_cache.Common.{
  ℕ, ◌≡◌, refl, true, false, some, List, [], ◌∷◌, length, if◌then◌else◌, arith,
}
use pmem_rts_cache.Filter.Bucket.{CInt, naught, plus_one}
use pmem_rts_cache.Filter.Cuckoo.{CuckooFilter, cf_lookup, cf_insert, cf_reset}
use pmem_rts_cache.Filter.Outcomes.{HasBlock}
use pmem_rts_cache.Filter.Scalable.{scf_lookup}
use pmem_rts_cache.Filter.Insertion.{filter, StaysInBlock, cf_insert_lem}
use pmem_rts_cache.Filter.History.{
  FilterCall, lookup, insert, insert_unique, delete, filter_run, filter_run_lem,
}
use pmem_rts_cache.Filter.Resetting.{Cleared, cf_reset_lem}
use pmem_rts_cache.Filter.Interface.{LookedUp, present, some_truthy, scf_lookup_lem}
use pmem_rts_cache.Examples.Filter.{
  all_zero, tables, tables-IsInit, octets, one_bucket, one_bucket-HasBlock, one_filter,
}

abbrev ten_draws : List ℕ
ten_draws = 1 ∷ 2 ∷ 3 ∷ 4 ∷ 5 ∷ 6 ∷ 7 ∷ 8 ∷ 9 ∷ 10 ∷ []

abbrev key : List ℕ
key = 97 ∷ 98 ∷ []

cf_insert_lem_example :
    (r : CInt × CuckooFilter) × (cf_insert tables all_zero false true ten_draws one_bucket key 2
      ≡ some r)
    × StaysInBlock 0 r
cf_insert_lem_example =
    cf_insert_lem tables all_zero false true ten_draws one_bucket octets key 2 tables-IsInit
      one_bucket-HasBlock (omega arith) (omega arith) (omega arith) (omega arith)

abbrev four_calls : List FilterCall
four_calls =
    insert true ten_draws key 2
    ∷ lookup key 2
    ∷ insert_unique false ten_draws (99 ∷ []) 1
    ∷ delete key 1
    ∷ []

abbrev sixteen : List ℕ
sixteen = 1 ∷ 2 ∷ 3 ∷ 4 ∷ 5 ∷ 6 ∷ 7 ∷ 8 ∷ 9 ∷ 10 ∷ 11 ∷ 12 ∷ 13 ∷ 14 ∷ 15 ∷ 16 ∷ []

abbrev two_buckets : CuckooFilter
two_buckets = record { count = 3; bucket_power = 1; buckets = some sixteen }

two_buckets-HasBlock : HasBlock two_buckets sixteen
two_buckets-HasBlock = record { block = refl; width = refl }

cf_reset_lem_example :
    (mem' : List ℕ) × (cf_reset two_buckets
      ≡ some (naught, record two_buckets { count = 0; buckets = some mem' }))
    × Cleared 0 16 sixteen mem'
cf_reset_lem_example = cf_reset_lem two_buckets sixteen two_buckets-HasBlock (omega arith)

abbrev both : List CuckooFilter
both = one_bucket ∷ two_buckets ∷ []

scf_lookup_lem_example :
    (rs : List CInt) × LookedUp (λ cf. cf_lookup tables all_zero false cf key 2) both rs
    × (scf_lookup tables all_zero false
          (some (record one_filter { filters = some (present both); filter_count = 2 }))
          key
          2
        ≡ some (if some_truthy rs then plus_one else naught))
scf_lookup_lem_example =
    scf_lookup_lem tables all_zero false key 2 tables-IsInit (omega arith) (omega arith) one_filter
      both
      (
        (octets, one_bucket-HasBlock, omega arith),
        ((sixteen, two_buckets-HasBlock, omega arith), tt),
      )

filter_run_lem_example :
    (rs : List CInt) × (n' : ℕ) × (mem' : List ℕ) × (filter_run tables all_zero false
        (filter 1 3 sixteen)
        four_calls
      ≡ some (rs, filter 1 n' mem'))
    × (length rs ≡ 4)
    × (length mem' ≡ 16)
filter_run_lem_example =
    filter_run_lem tables all_zero false four_calls 1 3 sixteen tables-IsInit (omega arith) refl
      (omega arith)
