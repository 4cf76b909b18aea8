-- ===== src/Filter/Insertion.antt =====
-- src/dual_domain/filter/cuckoo_filter.c: `cf_insert` of whole keys, with the rounds of `cf_reinsert`.
use pmem_rts_cache.Common.{
  ℕ, zero, suc, ◌+◌, ◌*◌, ◌%◌, ◌^◌, ◌≤◌, ◌<◌, ◌≡◌, refl, ◌∙◌, ap, ◌⊎◌, inl, inr, Bool, true, false,
  Option, some, List, [], ◌∷◌, ◌>>=◌, if◌then◌else◌, get_elem?-eq-get_or, set, length, length-set,
  arith,
}
use pmem_rts_cache.Pmem.{u32_mod}
use pmem_rts_cache.Hashing.FnvLaws.{AllOctets}
use pmem_rts_cache.Filter.Bucket.{CInt, naught, plus_one, truthy, bucket_size, store}
use pmem_rts_cache.Filter.Util.{Undefined, Tables, alt_index}
use pmem_rts_cache.Filter.Indices.{IsInit, alt_index-alt_index}
use pmem_rts_cache.Filter.Cuckoo.{
  CuckooFilter, index_bucket, key_place, cf_insert_internal, kick_once, cf_reinsert,
  cf_max_bucket_kick_out, cf_insert,
}
use pmem_rts_cache.Filter.Outcomes.{
  HasBlock, Inserts, null, stored, no_room, cf_insert_internal_lem,
}
use pmem_rts_cache.Filter.Keys.{IsPlace-total, power_fits}

-- A filter of 2 ^ `p` buckets with its block.
abbrev pub filter : ℕ → ℕ → List ℕ → CuckooFilter
filter p n mem = record { count = n; bucket_power = p; buckets = some mem }

-- The result is 0 or 1, and the filter has a block of the same size.
pub record StaysInBlock (p : ℕ) (r : CInt × CuckooFilter) : Type 0 where
  pub answer : CInt
  pub count : ℕ
  pub mem : List ℕ
  pub same : r ≡ (answer, filter p count mem)
  pub width : length mem ≡ 8 * 2 ^ p
  pub zero_or_one : (answer ≡ naught) ⊎ (answer ≡ plus_one)

Inserts-StaysInBlock :
    (p n : ℕ) (mem : List ℕ) (fp i : ℕ) (r : CInt × CuckooFilter)
    → length mem ≡ 8 * 2 ^ p
    → Inserts (filter p n mem) mem fp i r
    → StaysInBlock p r
Inserts-StaysInBlock p n mem fp i r w (null unset e) = record {
  answer = naught;
  count = n;
  mem = mem;
  same = e;
  width = w;
  zero_or_one = inl refl;
}
Inserts-StaysInBlock p n mem fp i r w (stored j there h empty e) = record {
  answer = naught;
  count = n;
  mem = set mem (index_bucket i + j) fp;
  same = e;
  width = length-set mem (index_bucket i + j) fp ∙ w;
  zero_or_one = inl refl;
}
Inserts-StaysInBlock p n mem fp i r w (no_room there taken e) = record {
  answer = plus_one;
  count = _;
  mem = mem;
  same = e;
  width = w;
  zero_or_one = inr refl;
}

insert_internal-StaysInBlock :
    (p n : ℕ) (mem : List ℕ) (fp i : ℕ)
    → length mem ≡ 8 * 2 ^ p
    → i < 2 ^ p
    → (r : CInt × CuckooFilter) × (cf_insert_internal (filter p n mem) fp i ≡ some r)
      × StaysInBlock p r
insert_internal-StaysInBlock p n mem fp i w h =
    let (r, ran, ins) =
      cf_insert_internal_lem (filter p n mem) mem fp i (record { block = refl; width = w }) h in
    (r, ran, Inserts-StaysInBlock p n mem fp i r w ins)

module _ (t : Tables) (p fp : ℕ) (ready : IsInit t) (small : p ≤ 30) (octet : fp < 256) where
  kick_once-StaysInBlock :
      (drawn n : ℕ) (mem : List ℕ) (i : ℕ)
      → length mem ≡ 8 * 2 ^ p
      → i < 2 ^ p
      → (d : CInt) × (cf' : CuckooFilter) × (i' : ℕ) × (kick_once t drawn (filter p n mem) mem fp i
          ≡ some (d, cf', i'))
        × StaysInBlock p (d, cf')
        × (i' < 2 ^ p)
  unfolding kick_once store
  kick_once-StaysInBlock drawn n mem i w h =
      let at = index_bucket i + drawn % u32_mod % bucket_size in
      let inside : at < length mem = omega (arith, w, h) in
      let mem' = set mem at fp in
      let (i', other, h', back) = alt_index-alt_index t fp i p ready octet small h in
      let ((d, cf'), ran, stays) =
        insert_internal-StaysInBlock p n mem' fp i' (length-set mem at fp ∙ w) h' in
      (
        d,
        cf',
        i',
        rw (get_elem?-eq-get_or mem at 0 inside, power_fits p small, other, ran) refl,
        stays,
        h',
      )

  after_kick :
      (left drawn : ℕ) (rands : List ℕ) (n : ℕ) (mem : List ℕ) (i : ℕ)
      → (answer : CInt) (count : ℕ) (mem' : List ℕ) (i' : ℕ)
      → kick_once t drawn (filter p n mem) mem fp i ≡ some (answer, filter p count mem', i')
      → length mem' ≡ 8 * 2 ^ p
      → (r : CInt × CuckooFilter) × (cf_reinsert t left rands (filter p count mem') fp i' ≡ some r)
        × StaysInBlock p r
      → (answer ≡ naught) ⊎ (answer ≡ plus_one)
      → (r : CInt × CuckooFilter) × (cf_reinsert t (suc left) (drawn ∷ rands) (filter p n mem) fp i
          ≡ some r)
        × StaysInBlock p r
  unfolding cf_reinsert
  after_kick left drawn rands n mem i answer count mem' i' ran w (r, ran', stays) (inl e) =
      (r, rw (ran, e) ran', stays)
  after_kick left drawn rands n mem i answer count mem' i' ran w rest (inr e) = (
    (plus_one, filter p count mem'),
    rw (ran, e) refl,
    record {
      answer = plus_one;
      count = count;
      mem = mem';
      same = refl;
      width = w;
      zero_or_one = inr refl;
    },
  )

  reinsert-StaysInBlock :
      (left : ℕ) (rands : List ℕ) (n : ℕ) (mem : List ℕ) (i : ℕ)
      → length mem ≡ 8 * 2 ^ p
      → i < 2 ^ p
      → left ≤ length rands
      → (r : CInt × CuckooFilter) × (cf_reinsert t left rands (filter p n mem) fp i ≡ some r)
        × StaysInBlock p r
  unfolding cf_reinsert
  reinsert-StaysInBlock zero rands n mem i w h enough = (
    (naught, filter p n mem),
    refl,
    record {
      answer = naught;
      count = n;
      mem = mem;
      same = refl;
      width = w;
      zero_or_one = inl refl;
    },
  )
  reinsert-StaysInBlock (suc left) [] n mem i w h enough = absurd (omega arith)
  reinsert-StaysInBlock (suc left) (drawn ∷ rands) n mem i w h enough =
      let (d, cf', i', ran, stays, h') = kick_once-StaysInBlock drawn n mem i w h in
      after_kick left drawn rands n mem i stays.answer stays.count stays.mem i'
        (ran ∙ ap (λ r. some (r.0, r.1, i')) stays.same) stays.width
        (reinsert-StaysInBlock left rands stays.count stays.mem i' stays.width h' (omega arith))
        stays.zero_or_one

  module _ (heads : Bool) (rands : List ℕ) (enough : cf_max_bucket_kick_out ≤ length rands) where
    -- What `cf_insert` does after the insertion into the second bucket, and after the first.
    abbrev after_two : ℕ → ℕ → CInt → CuckooFilter → Option (CInt × CuckooFilter)
    after_two i j a cf2 = elim (truthy a) [
      | true ↦ some (naught, cf2)
      | false ↦ cf_reinsert t cf_max_bucket_kick_out rands cf2 fp (if heads then i else j)
    ]

    abbrev after_one : ℕ → CInt → CuckooFilter → Option (CInt × CuckooFilter)
    after_one i a cf1 = elim (truthy a) [
      | true ↦ some (naught, cf1)
      | false ↦ do
        index2 ← alt_index t fp i (p % u32_mod)
        (r2, cf2) ← cf_insert_internal cf1 fp index2
        after_two i index2 r2 cf2
    ]

    stops :
        (n : ℕ) (mem : List ℕ) → length mem ≡ 8 * 2 ^ p → StaysInBlock p (naught, filter p n mem)
    stops n mem w = record {
      answer = naught;
      count = n;
      mem = mem;
      same = refl;
      width = w;
      zero_or_one = inl refl;
    }

    after_two_lem :
        (a : CInt) (n : ℕ) (mem : List ℕ) (i j : ℕ)
        → length mem ≡ 8 * 2 ^ p
        → i < 2 ^ p
        → j < 2 ^ p
        → (a ≡ naught) ⊎ (a ≡ plus_one)
        → (r : CInt × CuckooFilter) × (after_two i j a (filter p n mem) ≡ some r) × StaysInBlock p r
    after_two_lem a n mem i j w hi hj (inl e) =
        let (r, ran, stays) =
          reinsert-StaysInBlock cf_max_bucket_kick_out rands n mem (if heads then i else j) w
            (ground (arith, hi, hj)) enough in
        (r, rw e ran, stays)
    after_two_lem a n mem i j w hi hj (inr e) = ((naught, filter p n mem), rw e refl, stops n mem w)

    after_one_lem :
        (a : CInt) (n : ℕ) (mem : List ℕ) (i j : ℕ)
        → length mem ≡ 8 * 2 ^ p
        → i < 2 ^ p
        → j < 2 ^ p
        → alt_index t fp i p ≡ some j
        → (a ≡ naught) ⊎ (a ≡ plus_one)
        → (r : CInt × CuckooFilter) × (after_one i a (filter p n mem) ≡ some r) × StaysInBlock p r
    after_one_lem a n mem i j w hi hj other (inl e) =
        let (r2, ran2, s2) = insert_internal-StaysInBlock p n mem fp j w hj in
        let (r, ran, stays) =
          after_two_lem s2.answer s2.count s2.mem i j s2.width hi hj s2.zero_or_one in
        (r, rw (e, power_fits p small, other, ran2 ∙ ap some s2.same) ran, stays)
    after_one_lem a n mem i j w hi hj other (inr e) =
        ((naught, filter p n mem), rw e refl, stops n mem w)

module _ (t : Tables) (u : Undefined) (plain heads : Bool) (rands : List ℕ) where
  -- With the tables initialised and ten results of `rand()` to come, `cf_insert` of a key within its
  -- buffer comes to an end and stays in the block of a filter of at most 2 ^ 30 buckets. It returns 0 or
  -- 1 and leaves a filter with as many buckets and a block of the same size.
  pub cf_insert_lem :
      (cf : CuckooFilter) (mem key : List ℕ) (len : ℕ)
      → IsInit t
      → HasBlock cf mem
      → cf.bucket_power ≤ 30
      → AllOctets key
      → len ≤ length key
      → cf_max_bucket_kick_out ≤ length rands
      → (r : CInt × CuckooFilter) × (cf_insert t u plain heads rands cf key len ≡ some r)
        × StaysInBlock cf.bucket_power r
  unfolding cf_insert key_place
  cf_insert_lem cf mem key len ready v small os fits enough =
      let p = cf.bucket_power in
      let (at, is) = IsPlace-total t u plain cf mem key len ready v small os fits in
      let (r1, ran1, s1) =
        insert_internal-StaysInBlock p cf.count mem at.fp at.first v.width at.first_fits in
      let (r, ran, stays) =
        after_one_lem t p at.fp ready small at.octet heads rands enough s1.answer s1.count s1.mem
          at.first at.second s1.width at.first_fits at.second_fits is.other s1.zero_or_one in
      let same : cf ≡ filter p cf.count mem = ap (λ b. record cf { buckets = b }) v.block in
      (
        r,
        ap (λ c. cf_insert t u plain heads rands c key len) same
            ∙ rw (power_fits p small, is.placed, ran1 ∙ ap some s1.same) ran,
        stays,
      )
