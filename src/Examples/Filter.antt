-- ===== src/Examples/Filter.antt =====
-- src/dual_domain/filter on a block of eight octets and on tables with equal alternative hashes.
use pmem_rts_cache.Common.{
  ℕ, ◌^◌, ◌<◌, ◌≡◌, refl, ◌∙◌, ◌-◌, ap, false, some, List, [], ◌∷◌, arith, replicate,
  length-replicate,
}
use pmem_rts_cache.Filter.Bucket.{CInt, naught, search_fp, bucket_insert}
use pmem_rts_cache.Filter.Util.{
  Tables, Undefined, IndexFp, init_masks, index_and_fingerprint, alt_index,
}
use pmem_rts_cache.Filter.Indices.{
  IsInit, init_masks-get, index_and_fingerprint-bounds, alt_index-alt_index,
}
use pmem_rts_cache.Filter.Cuckoo.{CuckooFilter, cf_insert_internal}
use pmem_rts_cache.Filter.Bucket.{minus_one}
use pmem_rts_cache.Hashing.Fnv.{fnv_32a_buf, buf_loop}
use pmem_rts_cache.Filter.Cuckoo.{cf_insert, cf_lookup, cf_delete, key_place, pointer_set, cf_new}
use pmem_rts_cache.Filter.Growth.{add_filter}
use pmem_rts_cache.Filter.Keys.{Place, IsPlace, LooksUp, cf_lookup_lem}
use pmem_rts_cache.Filter.Deletion.{DeletesKey, cf_delete_lem}
use pmem_rts_cache.Common.{none, true, ◌==◌}
use pmem_rts_cache.Filter.Scalable.{
  LoadFactors, ScalableCuckooFilter, Allocations, scf_default_scale_factor_func, scf_configure,
}
use pmem_rts_cache.Filter.Growth.{
  scf_insert, Returned, SameSize, scf_insert-SameSize, AnswersAlways, scf_configure-AnswersAlways,
}
use pmem_rts_cache.Filter.Outcomes.{HasBlock}

abbrev pub all_zero : Undefined
all_zero = record { wide_mask = λ i. 0; shr32 = λ hash. 0 }

abbrev pub tables : Tables
tables = record { alt_hashes = replicate 256 6; masks = init_masks all_zero 64 0 }

pub tables-IsInit : IsInit tables
tables-IsInit = record {
  masks = λ p small.
      init_masks-get all_zero 64 0 p (omega arith) (omega arith)
      ∙ ap (λ k. some (2 ^ k - 1)) (omega arith);
  hashes = length-replicate 256 6;
}

abbrev pub octets : List ℕ
octets = 9 ∷ 0 ∷ 5 ∷ 0 ∷ 0 ∷ 0 ∷ 0 ∷ 0 ∷ []

abbrev pub one_bucket : CuckooFilter
one_bucket = record { count = 0; bucket_power = 0; buckets = some octets }

pub one_bucket-HasBlock : HasBlock one_bucket octets
one_bucket-HasBlock = record { block = refl; width = refl }

abbrev octets_after : List ℕ
octets_after = 9 ∷ 8 ∷ 5 ∷ 0 ∷ 0 ∷ 0 ∷ 0 ∷ 0 ∷ []

octets_inserted : bucket_insert octets 0 8 ≡ some (naught, octets_after)
unfolding bucket_insert search_fp
octets_inserted = refl

index_and_fingerprint-bounds_example :
    (r : IndexFp) × (index_and_fingerprint all_zero false tables (97 ∷ 98 ∷ []) 2 4 ≡ some r)
    × (r.indices < 2 ^ 4)
    × (0 < r.fp)
    × (r.fp < 256)
index_and_fingerprint-bounds_example =
    index_and_fingerprint-bounds all_zero false tables (97 ∷ 98 ∷ []) 2 4 tables-IsInit
      (omega arith) (omega arith) (omega arith)

alt_index-alt_index_example :
    (j : ℕ) × (alt_index tables 3 9 4 ≡ some j) × (j < 2 ^ 4) × (alt_index tables 3 j 4 ≡ some 9)
alt_index-alt_index_example =
    alt_index-alt_index tables 3 9 4 tables-IsInit (omega arith) (omega arith) (omega arith)

-- A load is never exceeded.
abbrev loads : LoadFactors
loads = record { Factor = ℕ; is_zero = λ x. x == 0; default = 9; exceeded = λ count power x. false }

abbrev full : List ℕ
full = 9 ∷ 8 ∷ 5 ∷ 7 ∷ 0 ∷ 0 ∷ 0 ∷ 0 ∷ []

-- One filter of one bucket, which is full.
abbrev pub one_filter : ScalableCuckooFilter ℕ
one_filter = record {
  load_factor = 9;
  scale_factor = some scf_default_scale_factor_func;
  filter_count = 1;
  capacity = 4;
  filters = some (some (record one_bucket { buckets = some full }) ∷ []);
}

-- It counts what it has not stored.
abbrev one_filter_counted : ScalableCuckooFilter ℕ
one_filter_counted = record one_filter {
  filters = some (some (record one_bucket { count = 1; buckets = some full }) ∷ []);
}

abbrev all_succeed : Allocations
all_succeed = record { array = true; filter = true; block = true }

-- The insertion ends where the filter would grow.
scf_insert_runs :
    scf_insert loads tables all_zero false all_succeed true [] (some one_filter) (97 ∷ []) 1
    ≡ some (minus_one, some one_filter_counted)
unfolding scf_insert cf_insert key_place index_and_fingerprint fnv_32a_buf buf_loop init_masks
    cf_insert_internal pointer_set bucket_insert search_fp add_filter cf_new
scf_insert_runs = refl

scf_insert-SameSize_example :
    Returned
      (SameSize loads one_filter)
      (scf_insert loads tables all_zero false all_succeed true [] (some one_filter) (97 ∷ []) 1)
scf_insert-SameSize_example =
    scf_insert-SameSize loads tables all_zero false all_succeed true [] one_filter (97 ∷ []) 1

scf_configure-AnswersAlways_example :
    (made : ScalableCuckooFilter ℕ) × (scf_configure loads all_succeed
        (record one_filter { filters = none })
      ≡ some (naught, made))
    × AnswersAlways loads tables all_zero false made
scf_configure-AnswersAlways_example =
    scf_configure-AnswersAlways loads tables all_zero false one_filter

cf_lookup_lem_example :
    (at : Place 0) × IsPlace tables all_zero false one_bucket (97 ∷ 98 ∷ []) 2 at
    × (r : CInt) × (cf_lookup tables all_zero false one_bucket (97 ∷ 98 ∷ []) 2 ≡ some r)
    × LooksUp octets at r
cf_lookup_lem_example =
    cf_lookup_lem tables all_zero false one_bucket octets (97 ∷ 98 ∷ []) 2 tables-IsInit
      one_bucket-HasBlock (omega arith) (omega arith) (omega arith)

cf_delete_lem_example :
    (at : Place 0) × IsPlace tables all_zero false one_bucket (97 ∷ 98 ∷ []) 2 at
    × (r : CInt × CuckooFilter) × (cf_delete tables all_zero false one_bucket (97 ∷ 98 ∷ []) 2
        ≡ some r)
    × DeletesKey one_bucket octets at r
cf_delete_lem_example =
    cf_delete_lem tables all_zero false one_bucket octets (97 ∷ 98 ∷ []) 2 tables-IsInit
      one_bucket-HasBlock (omega arith) (omega arith) (omega arith)
