-- ===== src/Random/Temper.antt =====
-- src/random/random.h: the tempering and the generator lose nothing.
use pmem_rts_cache.Common.{
  ℕ, zero, suc, ◌+◌, ◌-◌, ◌*◌, ◌/◌, ◌%◌, ◌^◌, ◌<◌, ◌≡◌, refl, sym, ◌∙◌, ap, ap₂, bit_and, bit_xor,
  arith,
}
use native.Mathlib.Nat.{mod-one}
use pmem_rts_cache.Common.Bits.{
  bit_xor_cancel, bit_xor-lt_pow, bit_xor-mod_pow, mod-pow-suc, bit_and_step,
}
use pmem_rts_cache.Pmem.{u32_mod, u64_mod}
use pmem_rts_cache.Hashing.Fnv.{shl32}
use pmem_rts_cache.Hashing.MixLaws.{xorshift, unxorshift, unxorshift-xorshift}
use pmem_rts_cache.Random.{shl_round, temper, lcg64_temper}

bit_and-mod_pow : (k a b : ℕ) → bit_and a b % 2 ^ k ≡ bit_and (a % 2 ^ k) (b % 2 ^ k)
bit_and-mod_pow zero a b = rw (mod-one (bit_and a b), mod-one a, mod-one b) refl
bit_and-mod_pow (suc k) a b =
    let low : (c : ℕ) → c % 2 ^ suc k / 2 ≡ c / 2 % 2 ^ k = λ c. omega (arith, mod-pow-suc c k) in
    let half : bit_and a b / 2 ≡ bit_and (a / 2) (b / 2) = omega (arith, bit_and_step a b) in
    rw
      (
        mod-pow-suc (bit_and a b) k,
        bit_and_step (a % 2 ^ suc k) (b % 2 ^ suc k),
        low a,
        low b,
        half,
        bit_and-mod_pow k (a / 2) (b / 2),
      )
      (omega (arith, bit_and_step a b, mod-pow-suc a k, mod-pow-suc b k))

-- One round of what undoes `shl_round`, towards the argument `x` of a result `y`.
abbrev pub unshl : ℕ → ℕ → ℕ → ℕ → ℕ
unshl s mask y t = bit_xor y (bit_and (shl32 t s) mask)

-- A round that is given a number with `k` digits of `x` gives one with `k'` of them, if the shift
-- makes them so many.
unshl-closer :
    (s mask x t k : ℕ)
    → shl32 t s % 2 ^ k ≡ shl32 x s % 2 ^ k
    → unshl s mask (shl_round s mask x) t % 2 ^ k ≡ x % 2 ^ k
unshl-closer s mask x t k same =
    let masked : bit_and (shl32 t s) mask % 2 ^ k ≡ bit_and (shl32 x s) mask % 2 ^ k =
      rw (bit_and-mod_pow k (shl32 t s) mask, bit_and-mod_pow k (shl32 x s) mask, same) refl in
    bit_xor-mod_pow k (shl_round s mask x) (bit_and (shl32 t s) mask)
    ∙ ap (bit_xor (shl_round s mask x % 2 ^ k)) masked
    ∙ sym (bit_xor-mod_pow k (shl_round s mask x) (bit_and (shl32 x s) mask))
    ∙ ap (λ w. w % 2 ^ k) (bit_xor_cancel x (bit_and (shl32 x s) mask))

-- What undoes the two rounds of `temper` that shift to the left.
unshl7 : ℕ → ℕ
unshl7 y = let f = unshl 7 0x9D2C5680 y in f (f (f (f (f 0))))

unshl15 : ℕ → ℕ
unshl15 y = let f = unshl 15 0xEFC60000 y in f (f (f 0))

unshl7-lem : (x : ℕ) → x < u32_mod → unshl7 (shl_round 7 0x9D2C5680 x) % u32_mod ≡ x
unfolding unshl7
unshl7-lem x h =
    let m : ℕ = 0x9D2C5680 in
    let f = unshl 7 m (shl_round 7 m x) in
    let a : f 0 % 2 ^ 7 ≡ x % 2 ^ 7 = unshl-closer 7 m x 0 7 (omega arith) in
    let b : f (f 0) % 2 ^ 14 ≡ x % 2 ^ 14 = unshl-closer 7 m x (f 0) 14 (omega arith) in
    let c : f (f (f 0)) % 2 ^ 21 ≡ x % 2 ^ 21 = unshl-closer 7 m x (f (f 0)) 21 (omega arith) in
    let d : f (f (f (f 0))) % 2 ^ 28 ≡ x % 2 ^ 28 =
      unshl-closer 7 m x (f (f (f 0))) 28 (omega arith) in
    unshl-closer 7 m x (f (f (f (f 0)))) 32 (omega arith) ∙ omega arith

unshl15-lem : (x : ℕ) → x < u32_mod → unshl15 (shl_round 15 0xEFC60000 x) % u32_mod ≡ x
unfolding unshl15
unshl15-lem x h =
    let m : ℕ = 0xEFC60000 in
    let f = unshl 15 m (shl_round 15 m x) in
    let a : f 0 % 2 ^ 15 ≡ x % 2 ^ 15 = unshl-closer 15 m x 0 15 (omega arith) in
    let b : f (f 0) % 2 ^ 30 ≡ x % 2 ^ 30 = unshl-closer 15 m x (f 0) 30 (omega arith) in
    unshl-closer 15 m x (f (f 0)) 32 (omega arith) ∙ omega arith

shl_round-lt : (s mask x : ℕ) → x < u32_mod → mask < u32_mod → shl_round s mask x < u32_mod
shl_round-lt s mask x h k =
    let a = shl32 x s in
    let fits : a % 2 ^ 32 ≡ a = omega arith in
    let low : bit_and a mask % 2 ^ 32 ≡ bit_and a mask =
      bit_and-mod_pow 32 a mask ∙ ap₂ bit_and fits (omega arith) in
    bit_xor-lt_pow 32 x (bit_and a mask) h (omega arith)

-- The inverse of `temper`.
unfoldable pub untemper : ℕ → ℕ
unfolding unshl7 unshl15
untemper y = unxorshift 11 (unshl7 (unshl15 (unxorshift 18 y) % u32_mod) % u32_mod)

-- `temper` loses nothing: from its result the 32 bit argument can be had back.
pub untemper-temper : (x : ℕ) → x < u32_mod → untemper (temper x) ≡ x
unfolding untemper temper
untemper-temper x h =
    let x1 = xorshift 11 x in
    let x2 = shl_round 7 0x9D2C5680 x1 in
    let x3 = shl_round 15 0xEFC60000 x2 in
    let h1 : x1 < u32_mod = bit_xor-lt_pow 32 x (x / 2 ^ 11) h (omega arith) in
    let h2 : x2 < u32_mod = shl_round-lt 7 0x9D2C5680 x1 h1 (omega arith) in
    let h3 : x3 < u32_mod = shl_round-lt 15 0xEFC60000 x2 h2 (omega arith) in
    rw (unxorshift-xorshift 18 x3 (omega arith), unshl15-lem x2 h2, unshl7-lem x1 h1)
      (unxorshift-xorshift 11 x (omega arith))

-- The seed that `lcg64_temper` was called with, from the one that it leaves.
abbrev pub previous_seed : ℕ → ℕ
previous_seed seed' = (seed' + u64_mod - 1) * 13877824140714322085 % u64_mod

-- `lcg64_temper` goes round a cycle of seeds: the seed before can be had back from the one that it
-- leaves, and the upper half of that one from the result.
pub lcg64_temper-inverse :
    (seed : ℕ)
    → seed < u64_mod
    → (previous_seed (lcg64_temper seed).0 ≡ seed)
      × (untemper (lcg64_temper seed).1 ≡ (lcg64_temper seed).0 / 2 ^ 32)
unfolding lcg64_temper
lcg64_temper-inverse seed h = (
  omega arith,
  untemper-temper ((6364136223846793005 * seed + 1) % u64_mod / 2 ^ 32) (omega arith),
)
