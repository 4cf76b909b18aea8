-- ===== src/Hashing/Mix.antt =====
-- src/dual_domain/hashing/hash_funcs.h: the mixing functions. `hash_fp` is the finaliser of splitmix64
-- and `murmur_hash_internal` MurmurHash3 on a host that loads the low octet first.
use pmem_rts_cache.Common.{
  ℕ, zero, suc, ◌+◌, ◌*◌, ◌/◌, ◌%◌, ◌^◌, Option, none, some, List, [], ◌∷◌, ◌>>=◌, bit_xor, bit_or,
}
use pmem_rts_cache.Pmem.{u32_mod, u64_mod}
use pmem_rts_cache.Hashing.Fnv.{shl32}

-- `hash_fp`, in 64 bits.
unfoldable pub hash_fp : ℕ → ℕ
hash_fp x =
    let x1 = bit_xor x (x / 2 ^ 30) * 0xbf58476d1ce4e5b9 % u64_mod in
    let x2 = bit_xor x1 (x1 / 2 ^ 27) * 0x94d049bb133111eb % u64_mod in bit_xor x2 (x2 / 2 ^ 31)

-- `murmur_32_scramble`
unfoldable pub murmur_32_scramble : ℕ → ℕ
murmur_32_scramble k =
    let k1 = k * 0xcc9e2d51 % u32_mod in
    let k2 = bit_or (shl32 k1 15) (k1 / 2 ^ 17) in k2 * 0x1b873593 % u32_mod

-- What one group of four octets does to `h`.
unfoldable pub murmur_block : ℕ → ℕ → ℕ
murmur_block h k =
    let h1 = bit_xor h (murmur_32_scramble k) in
    let h2 = bit_or (shl32 h1 13) (h1 / 2 ^ 19) in (h2 * 5 % u32_mod + 0xe6546b64) % u32_mod

-- The loop over the groups of four octets, with `groups` to go: `h` and the octets left.
unfoldable pub murmur_groups : ℕ → List ℕ → ℕ → Option (ℕ × List ℕ)
murmur_groups zero key h = some (h, key)
murmur_groups (suc groups) (a ∷ b ∷ c ∷ d ∷ key) h =
    murmur_groups groups key (murmur_block h (a + 256 * (b + 256 * (c + 256 * d))))
murmur_groups (suc groups) _ h = none

-- `key[n - 1]`, …, `key[0]`, each the next lower octet of `k`.
unfoldable pub murmur_rest : ℕ → List ℕ → Option ℕ
murmur_rest zero key = some 0
murmur_rest (suc n) [] = none
murmur_rest (suc n) (a ∷ key) = do k ← murmur_rest n key; some (bit_or (shl32 k 8) a)

-- The lines after `Finalize`.
unfoldable pub murmur_finalize : ℕ → ℕ → ℕ
murmur_finalize h len =
    let h0 = bit_xor h len % u32_mod in
    let h1 = bit_xor h0 (h0 / 2 ^ 16) * 0x85ebca6b % u32_mod in
    let h2 = bit_xor h1 (h1 / 2 ^ 13) * 0xc2b2ae35 % u32_mod in bit_xor h2 (h2 / 2 ^ 16)

unfoldable pub murmur_hash_internal : List ℕ → ℕ → ℕ → Option ℕ
unfolding murmur_groups murmur_rest
murmur_hash_internal key len seed = do
  (h, rest) ← murmur_groups (len / 4) key seed
  k ← murmur_rest (len % 4) rest
  some (murmur_finalize (bit_xor h (murmur_32_scramble k)) len)
