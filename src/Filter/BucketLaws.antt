-- ===== src/Filter/BucketLaws.antt =====
-- src/dual_domain/filter/bucket.c: what the searches find and what the writes change.
use pmem_rts_cache.Common.{
  ℕ, zero, suc, ◌+◌, ◌≤◌, ◌<◌, ◌≡◌, ◌≢◌, inl, inr, refl, sym, ◌∙◌, ap, subst, Option, none, some,
  List, ◌==◌, ◌>>=◌, get_or, get_elem?-eq-get_or, get_or-set, set, length, length-set, arith,
  Bool-cases, ==_iff, ==_self, ==_false_ne,
}
use pmem_rts_cache.Filter.Bucket.{
  CInt, minus_one, naught, bucket_size, search_fp, bucket_fp_index, store_at, bucket_insert,
  bucket_delete,
}

-- The search stops at the first octet that is `fp`, or finds none.
abbrev pub Finds : List ℕ → ℕ → ℕ → ℕ → ℕ → Option ℕ → Type 0
Finds mem bucket fp i end none = (k : ℕ) → i ≤ k → k < end → get_or mem (bucket + k) 0 ≢ fp
Finds mem bucket fp i end (some j) =
    (i ≤ j)
    × (j < end)
    × (get_or mem (bucket + j) 0 ≡ fp)
    × ((k : ℕ) → i ≤ k → k < j → get_or mem (bucket + k) 0 ≢ fp)

Finds-suc :
    (mem : List ℕ) (bucket fp i end : ℕ) (o : Option ℕ)
    → Finds mem bucket fp (i + 1) end o
    → get_or mem (bucket + i) 0 ≢ fp
    → Finds mem bucket fp i end o
Finds-suc mem bucket fp i end none f ne = λ k p q. elim (Bool-cases (k == i)) [
  | inl e ↦ subst (λ t. get_or mem (bucket + t) 0 ≢ fp) (sym ((==_iff k i).0 e)) ne
  | inr e ↦ f k (ground arith) q
]
Finds-suc mem bucket fp i end (some j) f ne = (
  omega arith,
  f.1,
  f.2,
  λ k p q. elim (Bool-cases (k == i)) [
    | inl e ↦ subst (λ t. get_or mem (bucket + t) 0 ≢ fp) (sym ((==_iff k i).0 e)) ne
    | inr e ↦ f.3 k (ground arith) q
  ],
)

search_fp-Finds :
    (left i end : ℕ) (mem : List ℕ) (bucket fp : ℕ)
    → i + left ≡ end
    → bucket + end ≤ length mem
    → (o : Option ℕ) × (search_fp left i mem bucket fp ≡ some o) × Finds mem bucket fp i end o
unfolding search_fp
search_fp-Finds zero i end mem bucket fp e h = (none, refl, λ k p q. absurd (omega arith))
search_fp-Finds (suc left) i end mem bucket fp e h =
    let read = get_elem?-eq-get_or mem (bucket + i) 0 (omega arith) in
    let octet = get_or mem (bucket + i) 0 in
    elim (Bool-cases (octet == fp)) [
      | inl same ↦ (
        some i,
        rw (read, ◌>>=◌, same),
        (omega arith, omega arith, (==_iff octet fp).0 same, λ k p q. absurd (omega arith)),
      )
      | inr other ↦
          let (o, run, finds) = search_fp-Finds left (i + 1) end mem bucket fp (omega arith) h in
          (
            o,
            rw (read, ◌>>=◌, other) run,
            Finds-suc mem bucket fp i end o finds (==_false_ne octet fp other),
          )
    ]

-- What a write to the first octet of a bucket that is `old` did.
pub data Writes (mem : List ℕ) (bucket old new : ℕ) (r : CInt × List ℕ) : Type 0 where
  wrote :
      (j : ℕ)
      → j < bucket_size
      → get_or mem (bucket + j) 0 ≡ old
      → r ≡ (naught, set mem (bucket + j) new)
      → Writes mem bucket old new r
  full :
      ((k : ℕ) → k < bucket_size → get_or mem (bucket + k) 0 ≢ old)
      → r ≡ (minus_one, mem)
      → Writes mem bucket old new r

store_at-Writes :
    (mem : List ℕ) (bucket old new : ℕ) (o : Option ℕ)
    → Finds mem bucket old 0 bucket_size o
    → Writes mem bucket old new (store_at mem bucket o new)
store_at-Writes mem bucket old new none f = full (λ k p. f k (omega arith) p) refl
store_at-Writes mem bucket old new (some j) f = wrote j f.1 f.2 refl

-- `bucket_insert` in a block that holds the bucket does not fault: it writes the fingerprint to an
-- empty slot and returns 0, or returns -1 and changes nothing if no slot is empty.
pub bucket_insert-Writes :
    (mem : List ℕ) (bucket fp : ℕ)
    → bucket + bucket_size ≤ length mem
    → (r : CInt × List ℕ) × (bucket_insert mem bucket fp ≡ some r) × Writes mem bucket 0 fp r
unfolding bucket_insert
bucket_insert-Writes mem bucket fp h =
    let (o, run, finds) = search_fp-Finds 4 0 4 mem bucket 0 refl h in
    (store_at mem bucket o fp, rw run, store_at-Writes mem bucket 0 fp o finds)

-- `bucket_delete` in a block that holds the bucket does not fault: it clears one slot that has the
-- fingerprint and returns 0, or returns -1 and changes nothing if no slot has it.
pub bucket_delete-Writes :
    (mem : List ℕ) (bucket fp : ℕ)
    → bucket + bucket_size ≤ length mem
    → (r : CInt × List ℕ) × (bucket_delete mem bucket fp ≡ some r) × Writes mem bucket fp 0 r
unfolding bucket_delete
bucket_delete-Writes mem bucket fp h =
    let (o, run, finds) = search_fp-Finds 4 0 4 mem bucket fp refl h in
    (store_at mem bucket o 0, rw run, store_at-Writes mem bucket fp 0 o finds)

-- `bucket_fp_index` in a block that holds the bucket does not fault, and gives the first slot with
-- the fingerprint, or none.
pub bucket_fp_index-Finds :
    (mem : List ℕ) (bucket fp : ℕ)
    → bucket + bucket_size ≤ length mem
    → (o : Option ℕ) × (bucket_fp_index mem bucket fp ≡ some o)
      × Finds mem bucket fp 0 bucket_size o
unfolding bucket_fp_index
bucket_fp_index-Finds mem bucket fp h = search_fp-Finds 4 0 4 mem bucket fp refl h

pub Writes-length :
    {mem : List ℕ} {bucket old new : ℕ} {r : CInt × List ℕ}
    → Writes mem bucket old new r
    → length r.1 ≡ length mem
Writes-length {mem} {bucket} {old} {new} (wrote j p e f) =
    ap (λ t. length t.1) f ∙ length-set mem (bucket + j) new
Writes-length (full n f) = ap (λ t. length t.1) f

refind :
    (mem mem' : List ℕ) (bucket fp : ℕ) (r : CInt × List ℕ) (o : Option ℕ)
    → bucket + bucket_size ≤ length mem
    → Writes mem bucket 0 fp r
    → r ≡ (naught, mem')
    → Finds mem' bucket fp 0 bucket_size o
    → (j : ℕ) × (o ≡ some j) × (j < bucket_size)
refind mem mem' bucket fp r none h (wrote j p e f) same finds =
    absurd (finds j (omega arith) p there)
  where
    there : get_or mem' (bucket + j) 0 ≡ fp
    there =
        ap (λ t. get_or t.1 (bucket + j) 0) (sym same ∙ f)
        ∙ get_or-set mem (bucket + j) (bucket + j) fp 0 (omega arith)
        ∙ rw (==_self (bucket + j)) refl
refind mem mem' bucket fp r (some k) h (wrote j p e f) same finds = (k, refl, finds.1)
refind mem mem' bucket fp r o h (full n f) same finds =
    absurd (minus_one≢naught (ap (λ t. t.0) (sym f ∙ same)))
  where
    minus_one≢naught : minus_one ≡ naught → ⊥
    minus_one≢naught e = cc

some-inj {ℓ} : {A : Type ℓ} {a b : A} → some a ≡ some b → a ≡ b
some-inj e = cc

-- A fingerprint for which `bucket_insert` returned 0 is found by `bucket_fp_index` afterwards.
pub bucket_fp_index-bucket_insert :
    (mem mem' : List ℕ) (bucket fp : ℕ)
    → bucket + bucket_size ≤ length mem
    → bucket_insert mem bucket fp ≡ some (naught, mem')
    → (j : ℕ) × (bucket_fp_index mem' bucket fp ≡ some (some j)) × (j < bucket_size)
bucket_fp_index-bucket_insert mem mem' bucket fp h ins =
    let (r, run, w) = bucket_insert-Writes mem bucket fp h in
    let same : r ≡ (naught, mem') = some-inj (sym run ∙ ins) in
    let longer : length mem' ≡ length mem = ap (λ t. length t.1) (sym same) ∙ Writes-length w in
    let (o, found, finds) = bucket_fp_index-Finds mem' bucket fp (omega arith) in
    let (j, is_some, small) = refind mem mem' bucket fp r o h w same finds in
    (j, found ∙ ap some is_some, small)
