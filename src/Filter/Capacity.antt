-- ===== src/Filter/Capacity.antt =====
-- src/dual_domain/filter/cuckoo_filter.c: the size of a new filter.
use Prim.Native.Nat.{suc-le-suc}
use native.Mathlib.Nat.{
  two-pow-succ, one-le-pow, div-one, div-le_self, le_trans, div_self, pow-le-pow_right,
}
use pmem_rts_cache.Common.{
  ℕ, zero, suc, ◌+◌, ◌-◌, ◌*◌, ◌/◌, ◌%◌, ◌^◌, ◌≤◌, ◌<◌, ◌≡◌, refl, ap, arith, dec_lt, ne→==_false,
}
use pmem_rts_cache.Common.Bits.{
  digit, digit-suc, digit-bit_or, digit-shift, digits_one, bit_or-lt_pow, top_digit,
}
use pmem_rts_cache.Pmem.{u64_mod}
use pmem_rts_cache.Filter.Cuckoo.{smear, next_pow_2, count_zeros, trailing_zeros, bucket_count}
use pmem_rts_cache.Filter.Bucket.{bucket_size}

-- Of the `l` digits of `x`, the upper `t` are ones.
record IsSmeared (l t x : ℕ) : Type 0 where
  bound : x < 2 ^ l
  ones : (i : ℕ) → i < l → l ≤ i + t → digit i x ≡ 1

smear-IsSmeared : (l t x : ℕ) → IsSmeared l t x → IsSmeared l (t + t) (smear t x)
smear-IsSmeared l t x s = record {
  bound =
      bit_or-lt_pow l x (x / 2 ^ t) s.bound (le_trans (suc-le-suc (div-le_self x (2 ^ t))) s.bound);
  ones = λ i p q. rw (digit-bit_or i x (x / 2 ^ t), digit-shift i t x) (grind (arith, s.ones));
}

-- The highest digit of a number that is not zero is one.
top-IsSmeared : (l m : ℕ) → 2 ^ l ≤ m → m < 2 ^ suc l → IsSmeared (suc l) 1 m
top-IsSmeared l m lo hi = record {
  bound = hi;
  ones = λ i p q.
      let here : i ≡ l = omega arith in
      let one : m / 2 ^ l ≡ 1 = grind (arith, two-pow-succ l, one-le-pow) in rw (here, one) refl;
}

-- All shifts together fill every digit below the highest one.
smear_all :
    (l m : ℕ)
    → l < 64
    → 2 ^ l ≤ m
    → m < 2 ^ suc l
    → smear 32 (smear 16 (smear 8 (smear 4 (smear 2 (smear 1 m))))) ≡ 2 ^ suc l - 1
smear_all l m small lo hi =
    let top = top-IsSmeared l m lo hi in
    let s1 = smear-IsSmeared (suc l) 1 m top in
    let s2 = smear-IsSmeared (suc l) 2 _ s1 in
    let s4 = smear-IsSmeared (suc l) 4 _ s2 in
    let s8 = smear-IsSmeared (suc l) 8 _ s4 in
    let s16 = smear-IsSmeared (suc l) 16 _ s8 in
    let s32 = smear-IsSmeared (suc l) 32 _ s16 in
    digits_one (suc l) _ s32.bound (λ i p. s32.ones i p (omega arith))

pow-lt_cancel : (l k : ℕ) → 2 ^ l < 2 ^ k → l < k
pow-lt_cancel l k h = elim (dec_lt l k) [
  | yes p ↦ p
  | no p ↦
      absurd (omega (arith, pow-le-pow_right {n = 2} (omega arith) {i = k} {j = l} (omega arith)))
]

-- `next_pow_2` of a number from 1 to 2 ^ 31 is the least power of two that is not below it.
pub next_pow_2_lem :
    (n : ℕ) → 0 < n → n ≤ 2 ^ 31 → (l : ℕ) × (next_pow_2 n ≡ 2 ^ l) × (n ≤ 2 ^ l) × (2 ^ l < 2 * n)
unfolding next_pow_2
next_pow_2_lem (suc zero) pos small = (0, refl, omega arith, omega arith)
next_pow_2_lem zero pos small = absurd (omega arith)
next_pow_2_lem (suc (suc m)) pos small =
    let (l, lo, hi) = top_digit (suc m) (omega arith) in
    let less : (suc (suc m) + u64_mod - 1) % u64_mod ≡ suc m = omega arith in
    let filled = smear_all l (suc m) (pow-lt_cancel l 64 (omega arith)) lo hi in
    (
      suc l,
      rw (less, filled) (omega (arith, two-pow-succ l, one-le-pow l 2 (omega arith))),
      omega arith,
      omega (arith, two-pow-succ l),
    )

-- `trailing_zeros` counts the zeros below the lowest one.
count_zeros-first :
    (left i num j : ℕ)
    → i ≤ j
    → j < i + left
    → ((k : ℕ) → k < j → digit k num ≡ 0)
    → digit j num ≡ 1
    → count_zeros left i num i ≡ j
unfolding count_zeros
count_zeros-first zero i num j p q zeros one = absurd (omega arith)
count_zeros-first (suc left) i num j p q zeros one =
    ground
      (arith, zeros i, ap (λ k. digit k num) {x = i} {y = j}, count_zeros-first left (i + 1) num j)

digit-pow_below : (k p : ℕ) → k < p → digit k (2 ^ p) ≡ 0
digit-pow_below k zero h = absurd (omega arith)
digit-pow_below zero (suc p) h = rw (div-one (2 ^ suc p)) (omega (arith, two-pow-succ p))
digit-pow_below (suc k) (suc p) h =
    let half : 2 ^ suc p / 2 ≡ 2 ^ p = omega (arith, two-pow-succ p) in
    rw (digit-suc k (2 ^ suc p), half) (digit-pow_below k p (omega arith))

digit-pow_self : (p : ℕ) → digit p (2 ^ p) ≡ 1
digit-pow_self p = rw (div_self (one-le-pow p 2 (omega arith))) refl

trailing_zeros-pow : (p : ℕ) → p < 32 → trailing_zeros (2 ^ p) ≡ p
unfolding trailing_zeros
trailing_zeros-pow p h =
    count_zeros-first 32 0 (2 ^ p) p (omega arith) (omega arith) (λ k q. digit-pow_below k p q)
      (digit-pow_self p)

bucket_count-pow :
    (capacity l : ℕ)
    → next_pow_2 capacity ≡ 2 ^ l
    → (bucket_count capacity ≡ 2 ^ (l - 2)) × (2 ^ l ≤ 4 * 2 ^ (l - 2))
unfolding bucket_count
bucket_count-pow capacity zero e = (rw e, omega arith)
bucket_count-pow capacity (suc zero) e = (rw e, omega arith)
bucket_count-pow capacity (suc (suc l)) e =
    let less : suc (suc l) - 2 ≡ l = omega arith in
    let pos = one-le-pow l 2 (omega arith) in
    let quarter : 2 ^ suc (suc l) / 4 ≡ 2 ^ l =
      omega (arith, two-pow-succ l, two-pow-succ (suc l)) in
    (
      rw (e, quarter, less, ne→==_false (2 ^ l) 0 (omega arith)),
      rw less (omega (arith, two-pow-succ l, two-pow-succ (suc l))),
    )

-- `cf_new` asked for at most 2 ^ 31 fingerprints allocates a power of two of buckets, which is at
-- most 2 ^ 29 and has room for them, and `bucketPower` is the exponent of that power.
pub bucket_count_lem :
    (capacity : ℕ)
    → capacity ≤ 2 ^ 31
    → (p : ℕ) × (bucket_count capacity ≡ 2 ^ p)
      × (trailing_zeros (bucket_count capacity) ≡ p)
      × (p ≤ 29)
      × (capacity ≤ bucket_size * bucket_count capacity)
bucket_count_lem zero small = (
  0,
  unfold bucket_count next_pow_2 in refl,
  unfold bucket_count next_pow_2 trailing_zeros count_zeros in refl,
  omega arith,
  omega arith,
)
bucket_count_lem (suc c) small =
    let (l, power, above, below) = next_pow_2_lem (suc c) (omega arith) small in
    let (count, enough) = bucket_count-pow (suc c) l power in
    let short : l < 32 = pow-lt_cancel l 32 (omega arith) in
    (
      l - 2,
      count,
      rw count (trailing_zeros-pow (l - 2) (omega arith)),
      omega arith,
      rw count (omega arith),
    )

-- From 2 ^ 31 + 1 on, `next_pow_2` wraps to zero and `cf_new` allocates one bucket for four
-- fingerprints.
pub bucket_count-wraps :
    (capacity : ℕ) → 2 ^ 31 < capacity → capacity ≤ 2 ^ 32 → bucket_count capacity ≡ 1
unfolding bucket_count next_pow_2
bucket_count-wraps capacity lo hi =
    let less : (capacity + u64_mod - 1) % u64_mod ≡ capacity - 1 = omega arith in
    rw (less, smear_all 31 (capacity - 1) (omega arith) (omega arith) (omega arith)) refl
