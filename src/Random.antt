-- ===== src/Random.antt =====
-- src/random/random.h: the tempering, the generator and the coin of the cuckoo filter.
pub mod Temper
pub mod Flips
use pmem_rts_cache.Common.{
  ℕ, ◌+◌, ◌-◌, ◌*◌, ◌/◌, ◌%◌, ◌^◌, Bool, ◌==◌, if◌then◌else◌, bit_and, bit_or, bit_xor,
}
use pmem_rts_cache.Pmem.{u32_mod, u64_mod}
use pmem_rts_cache.Hashing.Fnv.{shl32, shl64}

-- `x ^= x << s & mask`
abbrev pub shl_round : ℕ → ℕ → ℕ → ℕ
shl_round s mask x = bit_xor x (bit_and (shl32 x s) mask)

unfoldable pub temper : ℕ → ℕ
temper x =
    let x1 = bit_xor x (x / 2 ^ 11) in
    let x2 = shl_round 7 0x9D2C5680 x1 in
    let x3 = shl_round 15 0xEFC60000 x2 in bit_xor x3 (x3 / 2 ^ 18)

-- `lcg64_temper`: the next seed, and the result.
unfoldable pub lcg64_temper : ℕ → ℕ × ℕ
lcg64_temper seed =
    let seed' = (6364136223846793005 * seed + 1) % u64_mod in (seed', temper (seed' / 2 ^ 32))

-- The static variables of `rand_bool`.
pub record Coin : Type 0 where
  pub gcount : ℕ
  pub rbits : ℕ

-- `gseed`, from two results of `rand()`: a nonnegative `int` each.
abbrev pub gseed : ℕ × ℕ → ℕ
gseed (hi, lo) = bit_or (shl64 hi 32) (lo % u32_mod)

-- The refill at the start of `rand_bool`.
abbrev pub refill : ℕ × ℕ → Coin → Coin
refill rands coin =
    if coin.gcount == 0
    then record { gcount = 31; rbits = (lcg64_temper (gseed rands)).1 }
    else coin

-- `rand_bool` on the two results of `rand()` that it draws in every call.
unfoldable pub rand_bool : ℕ × ℕ → Coin → Bool × Coin
rand_bool rands coin =
    let full = refill rands coin in
    (full.rbits % 2 == 1, record { gcount = full.gcount - 1; rbits = full.rbits / 2 })
