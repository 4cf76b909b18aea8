-- ===== src/Filter/Resetting.antt =====
-- src/dual_domain/filter/cuckoo_filter.c: `cf_reset`, which resets four buckets whatever there is.
use pmem_rts_cache.Common.{
  ℕ, zero, suc, ◌+◌, ◌^◌, ◌≤◌, ◌<◌, ◌≡◌, refl, ◌∙◌, ap, none, some, List, [], ◌∷◌, ◌&&◌, leb, ltb,
  ◌==◌, if◌then◌else◌, get_or, get_or-set, get_elem?, get_elem?-eq-get_or, set, length, length-set,
  arith,
}
use native.Mathlib.Nat.{one-le-pow}
use pmem_rts_cache.Filter.Bucket.{naught, store, bucket_reset}
use pmem_rts_cache.Filter.Cuckoo.{CuckooFilter, cf_reset}
use pmem_rts_cache.Filter.Outcomes.{HasBlock}

-- The octets from `at` to `end` are zero, and the others as they were.
abbrev pub Cleared : ℕ → ℕ → List ℕ → List ℕ → Type 0
Cleared at end mem mem' =
    (length mem' ≡ length mem)
    × ((i : ℕ) → get_or mem' i 0 ≡ (if leb at i && ltb i end then 0 else get_or mem i 0))

get_elem?-beyond : (mem : List ℕ) (i : ℕ) → length mem ≤ i → get_elem? mem i ≡ none
get_elem?-beyond [] i h = refl
get_elem?-beyond (x ∷ mem) zero h = absurd (omega arith)
get_elem?-beyond (x ∷ mem) (suc i) h = get_elem?-beyond mem i (omega arith)

two_pow : (p : ℕ) → 1 ≤ p → 2 ≤ 2 ^ p
two_pow zero h = absurd (omega arith)
two_pow (suc p) h = omega (arith, one-le-pow p 2 (omega arith))

store-Cleared :
    (mem : List ℕ) (at : ℕ)
    → at < length mem
    → (mem' : List ℕ) × (store mem at 0 ≡ some mem') × Cleared at (at + 1) mem mem'
unfolding store
store-Cleared mem at h = (
  set mem at 0,
  rw (get_elem?-eq-get_or mem at 0 h) refl,
  (length-set mem at 0, λ i. get_or-set mem at i 0 0 h ∙ one i),
)
  where
    one :
        (i : ℕ)
        → (if at == i then 0 else get_or mem i 0)
          ≡ (if leb at i && ltb i (at + 1) then 0 else get_or mem i 0)
    one i = ground arith

Cleared-join :
    (at mid mid' end end' : ℕ) (m0 m1 m2 : List ℕ)
    → Cleared at mid m0 m1
    → Cleared mid' end m1 m2
    → (at ≤ mid) × (mid ≡ mid') × (mid' ≤ end) × (end ≡ end')
    → Cleared at end' m0 m2
Cleared-join at mid mid' end end' m0 m1 m2 (len, reads) (len', reads') (p, q, r, e) = (
  len' ∙ len,
  λ i. reads' i ∙ ap (λ o. if leb mid' i && ltb i end then 0 else o) (reads i) ∙ joined i,
)
  where
    joined :
        (i : ℕ)
        → (if leb mid' i && ltb i end
            then 0
            else (if leb at i && ltb i mid then 0 else get_or m0 i 0))
          ≡ (if leb at i && ltb i end' then 0 else get_or m0 i 0)
    joined i = ground (arith, p, q, r, e)

bucket_reset-Cleared :
    (mem : List ℕ) (at : ℕ)
    → at + 4 ≤ length mem
    → (mem' : List ℕ) × (bucket_reset mem at ≡ some mem') × Cleared at (at + 4) mem mem'
unfolding bucket_reset
bucket_reset-Cleared mem at h =
    let (m1, r1, c1) = store-Cleared mem at (omega (arith, h)) in
    let (m2, r2, c2) = store-Cleared m1 (at + 1) (omega (arith, h, c1.0)) in
    let (m3, r3, c3) = store-Cleared m2 (at + 2) (omega (arith, h, c1.0, c2.0)) in
    let (m4, r4, c4) = store-Cleared m3 (at + 3) (omega (arith, h, c1.0, c2.0, c3.0)) in
    let two =
      Cleared-join at (at + 1) (at + 1) (at + 1 + 1) (at + 2) mem m1 m2 c1 c2 (omega arith) in
    let three =
      Cleared-join at (at + 2) (at + 2) (at + 2 + 1) (at + 3) mem m2 m3 two c3 (omega arith) in
    (
      m4,
      rw (r1, r2, r3, r4) refl,
      Cleared-join at (at + 3) (at + 3) (at + 3 + 1) (at + 4) mem m3 m4 three c4 (omega arith),
    )

-- The octets of the third bucket are not there.
bucket_reset-beyond : (mem : List ℕ) (at : ℕ) → length mem ≤ at → bucket_reset mem at ≡ none
unfolding bucket_reset store
bucket_reset-beyond mem at h = rw (get_elem?-beyond mem at h) refl

module _ (cf : CuckooFilter) (mem : List ℕ) (v : HasBlock cf mem) where
  -- `cf_reset` on a filter of two buckets or more returns 0, sets the count to 0 and clears the first
  -- sixteen octets of the block: all of it for two buckets, and four buckets of what there are else.
  pub cf_reset_lem :
      1 ≤ cf.bucket_power
      → (mem' : List ℕ) × (cf_reset cf
          ≡ some (naught, record cf { count = 0; buckets = some mem' }))
        × Cleared 0 16 mem mem'
  unfolding cf_reset
  cf_reset_lem several =
      let wide : 16 ≤ length mem = omega (arith, v.width, two_pow cf.bucket_power several) in
      let (m1, r1, c1) = bucket_reset-Cleared mem 0 (omega (arith, wide)) in
      let (m2, r2, c2) = bucket_reset-Cleared m1 4 (omega (arith, wide, c1.0)) in
      let (m3, r3, c3) = bucket_reset-Cleared m2 8 (omega (arith, wide, c1.0, c2.0)) in
      let (m4, r4, c4) = bucket_reset-Cleared m3 12 (omega (arith, wide, c1.0, c2.0, c3.0)) in
      let two = Cleared-join 0 4 4 8 8 mem m1 m2 c1 c2 (omega arith) in
      let three = Cleared-join 0 8 8 12 12 mem m2 m3 two c3 (omega arith) in
      (
        m4,
        rw (v.block, r1, r2, r3, r4) refl,
        Cleared-join 0 12 12 16 16 mem m3 m4 three c4 (omega arith),
      )

  -- `cf_reset` on a filter of one bucket, as `cf_new` makes it for a capacity of at most four, writes
  -- behind the block.
  pub cf_reset-overflow : cf.bucket_power ≡ 0 → cf_reset cf ≡ none
  unfolding cf_reset
  cf_reset-overflow single =
      let narrow : length mem ≡ 8 = v.width ∙ rw single refl in
      let (m1, r1, c1) = bucket_reset-Cleared mem 0 (omega (arith, narrow)) in
      let (m2, r2, c2) = bucket_reset-Cleared m1 4 (omega (arith, narrow, c1.0)) in
      let gone = bucket_reset-beyond m2 8 (omega (arith, narrow, c1.0, c2.0)) in
      rw (v.block, r1, r2, gone) refl
