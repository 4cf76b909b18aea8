-- ===== src/Filter/Contents.antt =====
-- src/dual_domain/filter/bucket.h: the interface of a bucket, what a client may rely on, and the functions
-- of src/dual_domain/filter/bucket.c as an implementation.
-- A bucket reads as a multiset: how many of its four slots have an octet. The order of the slots is
-- forgotten, and a slot that has 0 is free.
use mathlib.Core.Path.{fun_ext}
use pmem_rts_cache.Common.{
  ℕ, zero, suc, ◌+◌, ◌-◌, ◌≤◌, ◌<◌, ◌≡◌, refl, ◌∙◌, ap, Bool, Option, some, List, ◌==◌, ltb, ◌⊎◌,
  if◌then◌else◌, get_or, get_or-set, set, length, length-set, arith, Bool-cases, inl, inr, ◌≢◌,
  ==_iff, ==_self, ne→==_false, lt→ltb,
}
use pmem_rts_cache.Filter.Bucket.{
  CInt, minus_one, naught, bucket_size, bucket_fp_index, bucket_insert, bucket_delete, bucket_reset,
  bucket_new, bucket_free,
}
use pmem_rts_cache.Filter.BucketLaws.{
  Writes, wrote, full, bucket_insert-Writes, bucket_delete-Writes,
}

-- The functions that the header declares.
pub record BucketOps : Type 0 where
  pub new : Bool → CInt
  pub free : Option Bool → Option CInt
  pub reset : List ℕ → ℕ → Option (List ℕ)
  pub insert : List ℕ → ℕ → ℕ → Option (CInt × List ℕ)
  pub delete : List ℕ → ℕ → ℕ → Option (CInt × List ℕ)
  pub fp_index : List ℕ → ℕ → ℕ → Option (Option ℕ)

abbrev pub bucket : BucketOps
bucket = record {
  new = bucket_new;
  free = bucket_free;
  reset = bucket_reset;
  insert = bucket_insert;
  delete = bucket_delete;
  fp_index = bucket_fp_index;
}

-- 1 where the octets are the same.
abbrev pub one : ℕ → ℕ → ℕ
one a b = if a == b then 1 else 0

-- How many of the `left` slots from `i` have the octet.
abbrev pub slots_with : ℕ → ℕ → List ℕ → ℕ → ℕ → ℕ
slots_with zero i mem at q = 0
slots_with (suc left) i mem at q = one (get_or mem (at + i) 0) q + slots_with left (i + 1) mem at q

-- The multiset of a bucket.
abbrev pub occurrences : List ℕ → ℕ → ℕ → ℕ
occurrences mem at = slots_with bucket_size 0 mem at

-- One octet replaced by another, if it is there: the result, and the multiset after it.
abbrev pub exchange : ℕ → ℕ → (ℕ → ℕ) → CInt × (ℕ → ℕ)
exchange old new s =
    if ltb 0 (s old) then (naught, λ q. s q + one new q - one old q) else (minus_one, s)

-- A call that did to a bucket of a block what it does to a multiset, and nothing outside of the bucket.
pub record Performs (mem : List ℕ) (at : ℕ) (step : CInt × (ℕ → ℕ)) (o : Option (CInt × List ℕ))
    : Type 0 where
  pub result : CInt × List ℕ
  pub ran : o ≡ some result
  pub width : length result.1 ≡ length mem
  pub outside : (k : ℕ) → (k < at) ⊎ (at + bucket_size ≤ k) → get_or result.1 k 0 ≡ get_or mem k 0
  pub does : (result.0, occurrences result.1 at) ≡ step

-- What a client of the header may rely on.
pub record IsBucket (o : BucketOps) : Type 0 where
  pub insert_law :
      (mem : List ℕ) (at fp : ℕ)
      → at + bucket_size ≤ length mem
      → Performs mem at (exchange 0 fp (occurrences mem at)) (o.insert mem at fp)
  pub delete_law :
      (mem : List ℕ) (at fp : ℕ)
      → at + bucket_size ≤ length mem
      → Performs mem at (exchange fp 0 (occurrences mem at)) (o.delete mem at fp)

-- A write does not change the slots after it.
slots_with-after :
    (left i j : ℕ) (mem : List ℕ) (at new q : ℕ)
    → j < i
    → at + j < length mem
    → slots_with left i (set mem (at + j) new) at q ≡ slots_with left i mem at q
slots_with-after zero i j mem at new q p h = refl
slots_with-after (suc left) i j mem at new q p h =
    let same : get_or (set mem (at + j) new) (at + i) 0 ≡ get_or mem (at + i) 0 =
      get_or-set mem (at + j) (at + i) new 0 h ∙ ground arith in
    rw (same, slots_with-after left (i + 1) j mem at new q (omega arith) h) refl

-- A write takes one occurrence of the old octet and gives one of the new.
slots_with-set :
    (left i j : ℕ) (mem : List ℕ) (at new q : ℕ)
    → i ≤ j
    → j < i + left
    → at + j < length mem
    → slots_with left i (set mem (at + j) new) at q + one (get_or mem (at + j) 0) q
      ≡ slots_with left i mem at q + one new q
slots_with-set zero i j mem at new q p r h = absurd (omega arith)
slots_with-set (suc left) i j mem at new q p r h = elim (Bool-cases (i == j)) [
  | inl e ↦
      let same : i ≡ j = (==_iff i j).0 e in
      let read : get_or (set mem (at + j) new) (at + i) 0 ≡ new =
        get_or-set mem (at + j) (at + i) new 0 h ∙ ground arith in
      let rest = slots_with-after left (i + 1) j mem at new q (omega arith) h in
      rw (read, rest, same) (omega arith)
  | inr e ↦
      let read : get_or (set mem (at + j) new) (at + i) 0 ≡ get_or mem (at + i) 0 =
        get_or-set mem (at + j) (at + i) new 0 h ∙ ground arith in
      let rest = slots_with-set left (i + 1) j mem at new q (ground arith) (omega arith) h in
      rw read (omega (arith, rest))
]

slots_with-pos :
    (left i j : ℕ) (mem : List ℕ) (at q : ℕ)
    → i ≤ j
    → j < i + left
    → get_or mem (at + j) 0 ≡ q
    → 0 < slots_with left i mem at q
slots_with-pos zero i j mem at q p r e = absurd (omega arith)
slots_with-pos (suc left) i j mem at q p r e = elim (Bool-cases (i == j)) [
  | inl same ↦
      let here : get_or mem (at + i) 0 ≡ q =
        ap (λ k. get_or mem (at + k) 0) ((==_iff i j).0 same) ∙ e in
      rw (here, ==_self q) (omega arith)
  | inr other ↦
      let later = slots_with-pos left (i + 1) j mem at q (ground arith) (omega arith) e in
      omega (arith, later)
]

slots_with-none :
    (left i : ℕ) (mem : List ℕ) (at q : ℕ)
    → ((k : ℕ) → i ≤ k → k < i + left → get_or mem (at + k) 0 ≢ q)
    → slots_with left i mem at q ≡ 0
slots_with-none zero i mem at q h = refl
slots_with-none (suc left) i mem at q h =
    let here = ne→==_false (get_or mem (at + i) 0) q (h i (omega arith) (omega arith)) in
    rw (here, slots_with-none left (i + 1) mem at q (λ k p r. h k (omega arith) (omega arith))) refl

Writes-Performs :
    (mem : List ℕ) (at old new : ℕ) (r : CInt × List ℕ) (o : Option (CInt × List ℕ))
    → at + bucket_size ≤ length mem
    → o ≡ some r
    → Writes mem at old new r
    → Performs mem at (exchange old new (occurrences mem at)) o
Writes-Performs mem at old new r o h ran (wrote j p e f) = record {
  result = (naught, set mem (at + j) new);
  ran = ran ∙ ap some f;
  width = length-set mem (at + j) new;
  outside = λ k away. elim away [
    | inl below ↦ get_or-set mem (at + j) k new 0 (omega arith) ∙ ground arith
    | inr above ↦ get_or-set mem (at + j) k new 0 (omega arith) ∙ ground arith
  ];
  does =
      let there =
        lt→ltb 0 (occurrences mem at old)
          (slots_with-pos 4 0 j mem at old (omega arith) (omega arith) e) in
      rw there (
        ap (λ s. (naught, s))
          (fun_ext λ q.
            let counted =
              slots_with-set 4 0 j mem at new q (omega arith) (omega arith) (omega arith) in
            omega (arith, rw e at counted)));
}
Writes-Performs mem at old new r o h ran (full n f) = record {
  result = (minus_one, mem);
  ran = ran ∙ ap some f;
  width = refl;
  outside = λ k away. refl;
  does = rw (slots_with-none 4 0 mem at old (λ k p q. n k q)) refl;
}

-- The functions of the source keep to that.
pub bucket-IsBucket : IsBucket bucket
bucket-IsBucket = record {
  insert_law = λ mem at fp h.
      let (r, ran, w) = bucket_insert-Writes mem at fp h in
      Writes-Performs mem at 0 fp r (bucket_insert mem at fp) h ran w;
  delete_law = λ mem at fp h.
      let (r, ran, w) = bucket_delete-Writes mem at fp h in
      Writes-Performs mem at fp 0 r (bucket_delete mem at fp) h ran w;
}
