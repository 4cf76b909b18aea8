-- ===== src/Examples/Buckets.antt =====
-- src/dual_domain/filter/bucket.c: calls on the second bucket of a block.
use pmem_rts_cache.Common.{◌≡◌, refl, some, List, [], ◌∷◌, ℕ, arith, length, get_or, inl}
use pmem_rts_cache.Filter.Bucket.{minus_one, naught}
use pmem_rts_cache.Filter.Contents.{bucket, occurrences}
use pmem_rts_cache.Filter.BucketRun.{
  BucketCall, insert, delete, multiset_step, multiset_run, multiset_after, bucket_run,
  bucket_run_refines,
}

abbrev block : List ℕ
block = 1 ∷ 2 ∷ 3 ∷ 4 ∷ 9 ∷ 0 ∷ 7 ∷ 0 ∷ []

abbrev six_calls : List BucketCall
six_calls = insert 5 ∷ delete 9 ∷ insert 6 ∷ insert 6 ∷ insert 8 ∷ delete 3 ∷ []

bucket_run_refines_example :
    (mem' : List ℕ) × (bucket_run bucket block 4 six_calls
      ≡ some (multiset_run (occurrences block 4) six_calls, mem'))
    × (length mem' ≡ length block)
    × (occurrences mem' 4 ≡ multiset_after (occurrences block 4) six_calls)
    × (get_or mem' 2 0 ≡ get_or block 2 0)
bucket_run_refines_example =
    bucket_run_refines six_calls block 4 (omega arith) 2 (inl (omega arith))

four_calls_succeed :
    multiset_run (occurrences block 4) six_calls
    ≡ naught ∷ naught ∷ naught ∷ naught ∷ minus_one ∷ minus_one ∷ []
unfolding multiset_run multiset_step
four_calls_succeed = refl
