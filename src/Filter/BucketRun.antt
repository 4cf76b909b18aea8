-- ===== src/Filter/BucketRun.antt =====
-- src/dual_domain/filter/bucket.c: every sequence of insertions and deletions on one bucket, against the
-- multiset of its octets.
use pmem_rts_cache.Common.{
  ℕ, ◌+◌, ◌≤◌, ◌≡◌, refl, ap, Option, some, List, [], ◌∷◌, ◌>>=◌, length, arith, ◌<◌, ◌⊎◌, ◌∙◌,
  get_or,
}
use pmem_rts_cache.Filter.Bucket.{CInt, bucket_size}
use pmem_rts_cache.Filter.Contents.{
  BucketOps, bucket, occurrences, exchange, Performs, IsBucket, bucket-IsBucket,
}

-- A call on a bucket.
pub data BucketCall : Type 0 where
  insert delete : ℕ → BucketCall

-- What a call promises: an insertion replaces a free slot, a deletion frees one.
unfoldable pub multiset_step : BucketCall → (ℕ → ℕ) → CInt × (ℕ → ℕ)
multiset_step (insert fp) s = exchange 0 fp s
multiset_step (delete fp) s = exchange fp 0 s

unfoldable pub multiset_run : (ℕ → ℕ) → List BucketCall → List CInt
unfolding multiset_step
multiset_run s [] = []
multiset_run s (c ∷ cs) = let (r, s') = multiset_step c s in r ∷ multiset_run s' cs

-- The multiset after the calls.
unfoldable pub multiset_after : (ℕ → ℕ) → List BucketCall → ℕ → ℕ
unfolding multiset_step
multiset_after s [] = s
multiset_after s (c ∷ cs) = multiset_after (multiset_step c s).1 cs

module _ (o : BucketOps) where
  unfoldable pub bucket_call : List ℕ → ℕ → BucketCall → Option (CInt × List ℕ)
  bucket_call mem at (insert fp) = o.insert mem at fp
  bucket_call mem at (delete fp) = o.delete mem at fp

  unfoldable pub bucket_run : List ℕ → ℕ → List BucketCall → Option (List CInt × List ℕ)
  unfolding bucket_call
  bucket_run mem at [] = some ([], mem)
  bucket_run mem at (c ∷ cs) = do
    (r, mem') ← bucket_call mem at c
    (rs, mem'') ← bucket_run mem' at cs
    some (r ∷ rs, mem'')

  call-Performs :
      IsBucket o
      → (mem : List ℕ) (at : ℕ) (c : BucketCall) → at + bucket_size ≤ length mem
      → Performs mem at (multiset_step c (occurrences mem at)) (bucket_call mem at c)
  unfolding bucket_call multiset_step
  call-Performs l mem at (insert fp) h = l.insert_law mem at fp h
  call-Performs l mem at (delete fp) h = l.delete_law mem at fp h

  run_refines :
      IsBucket o
      → (cs : List BucketCall) (mem : List ℕ) (at : ℕ) → at + bucket_size ≤ length mem
      → (k : ℕ) → (k < at) ⊎ (at + bucket_size ≤ k)
      → (mem' : List ℕ) × (bucket_run mem at cs ≡ some (multiset_run (occurrences mem at) cs, mem'))
        × (length mem' ≡ length mem)
        × (occurrences mem' at ≡ multiset_after (occurrences mem at) cs)
        × (get_or mem' k 0 ≡ get_or mem k 0)
  unfolding bucket_run multiset_run multiset_after
  run_refines l [] mem at h k away = (mem, refl, refl, refl, refl)
  run_refines l (c ∷ cs) mem at h k away =
      let p = call-Performs l mem at c h in
      let (mem', ran, width, holds, same) =
        run_refines l cs p.result.1 at (omega (arith, p.width)) k away in
      (
        mem',
        rw (p.ran, ◌>>=◌, ran, ap (λ t. t.0) p.does, ap (λ t. t.1) p.does) refl,
        width ∙ p.width,
        holds ∙ ap (λ t. multiset_after t.1 cs) p.does,
        same ∙ p.outside k away,
      )

-- In a block that holds the bucket, any sequence of insertions and deletions on it is defined, and
-- returns what the multiset of its four octets returns: 0 where the insertion finds a free slot or the
-- deletion finds its octet, and -1 otherwise. The four octets are then that multiset after the calls, the
-- block has its length, and an octet outside of the bucket is as it was.
pub bucket_run_refines :
    (cs : List BucketCall) (mem : List ℕ) (at : ℕ)
    → at + bucket_size ≤ length mem
    → (k : ℕ) → (k < at) ⊎ (at + bucket_size ≤ k)
    → (mem' : List ℕ) × (bucket_run bucket mem at cs
        ≡ some (multiset_run (occurrences mem at) cs, mem'))
      × (length mem' ≡ length mem)
      × (occurrences mem' at ≡ multiset_after (occurrences mem at) cs)
      × (get_or mem' k 0 ≡ get_or mem k 0)
bucket_run_refines = run_refines bucket bucket-IsBucket
