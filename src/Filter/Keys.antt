-- ===== src/Filter/Keys.antt =====
-- src/dual_domain/filter/cuckoo_filter.c: `cf_lookup` and `cf_delete` of whole keys.
use pmem_rts_cache.Common.{
  ℕ, ◌+◌, ◌%◌, ◌^◌, ◌≤◌, ◌<◌, ◌≡◌, ◌≢◌, refl, Bool, Option, none, some, List, get_or, length, arith,
}
use native.Mathlib.Nat.{mod-eq_of_lt}
use pmem_rts_cache.Pmem.{u32_mod}
use pmem_rts_cache.Hashing.FnvLaws.{AllOctets}
use pmem_rts_cache.Filter.Bucket.{CInt, naught, plus_one, bucket_size, bucket_fp_index}
use pmem_rts_cache.Filter.BucketLaws.{Finds, bucket_fp_index-Finds}
use pmem_rts_cache.Filter.Util.{Undefined, Tables, index_and_fingerprint, alt_index}
use pmem_rts_cache.Filter.Indices.{IsInit, index_and_fingerprint-bounds, alt_index-alt_index}
use pmem_rts_cache.Filter.Cuckoo.{CuckooFilter, index_bucket, key_place, cf_lookup}
use pmem_rts_cache.Filter.Outcomes.{HasBlock}

-- A fingerprint and its two buckets, in a filter with 2 ^ `p` buckets.
pub record Place (p : ℕ) : Type 0 where
  pub fp : ℕ
  pub first : ℕ
  pub second : ℕ
  pub positive : 0 < fp
  pub octet : fp < 256
  pub first_fits : first < 2 ^ p
  pub second_fits : second < 2 ^ p

-- Some slot of a bucket has the fingerprint.
abbrev pub Has : List ℕ → ℕ → ℕ → Type 0
Has mem i fp = (k : ℕ) × (k < bucket_size) × (get_or mem (index_bucket i + k) 0 ≡ fp)

abbrev pub HasNot : List ℕ → ℕ → ℕ → Type 0
HasNot mem i fp = (k : ℕ) → k < bucket_size → get_or mem (index_bucket i + k) 0 ≢ fp

-- What `cf_lookup` returns.
pub data LooksUp (mem : List ℕ) {p : ℕ} (at : Place p) (r : CInt) : Type 0 where
  in_first : Has mem at.first at.fp → r ≡ plus_one → LooksUp mem at r
  in_second : HasNot mem at.first at.fp → Has mem at.second at.fp → r ≡ plus_one → LooksUp mem at r
  nowhere : HasNot mem at.first at.fp → HasNot mem at.second at.fp → r ≡ naught → LooksUp mem at r

-- The result for what the searches of the two buckets find.
abbrev looked_up : Option ℕ → Option ℕ → CInt
looked_up (some j) o = plus_one
looked_up none (some j) = plus_one
looked_up none none = naught

Finds-some :
    (mem : List ℕ) (i fp j : ℕ)
    → Finds mem (index_bucket i) fp 0 bucket_size (some j)
    → Has mem i fp
Finds-some mem i fp j f = (j, f.1, f.2)

Finds-none :
    (mem : List ℕ) (i fp : ℕ) → Finds mem (index_bucket i) fp 0 bucket_size none → HasNot mem i fp
Finds-none mem i fp f = λ k h. f k (omega arith) h

looked_up-LooksUp :
    {p : ℕ} (mem : List ℕ) (at : Place p) (o1 o2 : Option ℕ)
    → Finds mem (index_bucket at.first) at.fp 0 bucket_size o1
    → Finds mem (index_bucket at.second) at.fp 0 bucket_size o2
    → LooksUp mem at (looked_up o1 o2)
looked_up-LooksUp mem at (some j) o2 f1 f2 = in_first (Finds-some mem at.first at.fp j f1) refl
looked_up-LooksUp mem at none (some j) f1 f2 =
    in_second (Finds-none mem at.first at.fp f1) (Finds-some mem at.second at.fp j f2) refl
looked_up-LooksUp mem at none none f1 f2 =
    nowhere (Finds-none mem at.first at.fp f1) (Finds-none mem at.second at.fp f2) refl

pub power_fits : (p : ℕ) → p ≤ 30 → p % u32_mod ≡ p
power_fits p small = mod-eq_of_lt (omega (arith, small))

module _ (t : Tables) (u : Undefined) (plain : Bool) (cf : CuckooFilter) where
  -- The place of a key is the one that `index_and_fingerprint` and `alt_index` give.
  pub record IsPlace (key : List ℕ) (len : ℕ) (at : Place cf.bucket_power) : Type 0 where
    pub placed :
        index_and_fingerprint u plain t key len cf.bucket_power
        ≡ some (record { indices = at.first; fp = at.fp })
    pub other : alt_index t at.fp at.first cf.bucket_power ≡ some at.second
    pub back : alt_index t at.fp at.second cf.bucket_power ≡ some at.first

  module _ (mem key : List ℕ) (len : ℕ) (ready : IsInit t) (v : HasBlock cf mem)
      (small : cf.bucket_power ≤ 30) (os : AllOctets key) (fits : len ≤ length key) where
    pub IsPlace-total : (at : Place cf.bucket_power) × IsPlace key len at
    IsPlace-total =
        let (ifp, placed, h1, pos, oct) =
          index_and_fingerprint-bounds u plain t key len cf.bucket_power ready os fits small in
        let (j, other, h2, back) =
          alt_index-alt_index t ifp.fp ifp.indices cf.bucket_power ready oct small h1 in
        (
          record {
            fp = ifp.fp;
            first = ifp.indices;
            second = j;
            positive = pos;
            octet = oct;
            first_fits = h1;
            second_fits = h2;
          },
          record { placed = placed; other = other; back = back },
        )

    in_block : (i : ℕ) → i < 2 ^ cf.bucket_power → index_bucket i + bucket_size ≤ length mem
    in_block i h = rw (v.width) (omega arith)

    lookup_runs :
        (at : Place cf.bucket_power)
        → IsPlace key len at
        → (o1 o2 : Option ℕ) → bucket_fp_index mem (index_bucket at.first) at.fp ≡ some o1
        → bucket_fp_index mem (index_bucket at.second) at.fp ≡ some o2
        → cf_lookup t u plain cf key len ≡ some (looked_up o1 o2)
    unfolding cf_lookup key_place
    lookup_runs at is (some j) o2 ran1 ran2 =
        rw (v.block, power_fits cf.bucket_power small, is.placed, ran1) refl
    lookup_runs at is none (some j) ran1 ran2 =
        let fit = power_fits cf.bucket_power small in
        rw (v.block, fit, is.placed, ran1, fit, is.other, ran2) refl
    lookup_runs at is none none ran1 ran2 =
        let fit = power_fits cf.bucket_power small in
        rw (v.block, fit, is.placed, ran1, fit, is.other, ran2) refl

    -- With the tables initialised, `cf_lookup` of a key within its buffer stays in the block of a filter
    -- of at most 2 ^ 30 buckets. It returns 1 where one of the two buckets of the key has the
    -- fingerprint, and 0 where neither has.
    pub cf_lookup_lem :
        (at : Place cf.bucket_power) × IsPlace key len at
        × (r : CInt) × (cf_lookup t u plain cf key len ≡ some r)
        × LooksUp mem at r
    cf_lookup_lem =
        let (at, is) = IsPlace-total in
        let (o1, ran1, f1) =
          bucket_fp_index-Finds mem (index_bucket at.first) at.fp
            (in_block at.first at.first_fits) in
        let (o2, ran2, f2) =
          bucket_fp_index-Finds mem (index_bucket at.second) at.fp
            (in_block at.second at.second_fits) in
        (
          at,
          is,
          looked_up o1 o2,
          lookup_runs at is o1 o2 ran1 ran2,
          looked_up-LooksUp mem at o1 o2 f1 f2,
        )
