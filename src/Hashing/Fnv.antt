-- ===== src/Hashing/Fnv.antt =====
-- src/dual_domain/hashing/fnv.c: the eight FNV hash functions.
-- A buffer is the list of its octets and a string the list of its octets with the terminating zero;
-- `none` is a read past the end. `plain` is whether NO_FNV_GCC_OPTIMIZATION is defined.
use pmem_rts_cache.Common.{
  ℕ, zero, suc, ◌+◌, ◌*◌, ◌%◌, ◌^◌, Bool, Option, none, some, List, [], ◌∷◌, ◌==◌, if◌then◌else◌,
  bit_xor,
}
use pmem_rts_cache.Pmem.{u32_mod, u64_mod}

-- `x << k` in 32 bits and in 64 bits.
abbrev pub shl32 : ℕ → ℕ → ℕ
shl32 x k = x * 2 ^ k % u32_mod

abbrev pub shl64 : ℕ → ℕ → ℕ
shl64 x k = x * 2 ^ k % u64_mod

-- `FNV_32_PRIME` and `FNV_64_PRIME`
abbrev pub fnv_32_prime : ℕ
fnv_32_prime = 0x01000193

abbrev pub fnv_64_prime : ℕ
fnv_64_prime = 0x100000001b3

-- `FNV1_32_INIT`, which is `FNV1_32A_INIT` too.
abbrev pub fnv1_32_init : ℕ
fnv1_32_init = 0x811c9dc5

-- The multiplication of a 32 bit round, in either build.
unfoldable pub fnv_32_mul : Bool → ℕ → ℕ
fnv_32_mul plain hval =
    if plain
    then hval * fnv_32_prime % u32_mod
    else (hval
        + (shl32 hval 1 + shl32 hval 4 + shl32 hval 7 + shl32 hval 8 + shl32 hval 24) % u32_mod)
      % u32_mod

-- The multiplication of a 64 bit round, in either build.
unfoldable pub fnv_64_mul : Bool → ℕ → ℕ
fnv_64_mul plain hval =
    if plain
    then hval * fnv_64_prime % u64_mod
    else (hval
        + (shl64 hval 1 + shl64 hval 4 + shl64 hval 5 + shl64 hval 7 + shl64 hval 8 + shl64 hval 40)
          % u64_mod)
      % u64_mod

-- The bodies of the loops: FNV-1 multiplies first, FNV-1a last.
unfoldable pub fnv_32_round : Bool → ℕ → ℕ → ℕ
fnv_32_round plain hval octet = bit_xor (fnv_32_mul plain hval) octet

unfoldable pub fnv_32a_round : Bool → ℕ → ℕ → ℕ
fnv_32a_round plain hval octet = fnv_32_mul plain (bit_xor hval octet)

unfoldable pub fnv_64_round : Bool → ℕ → ℕ → ℕ
fnv_64_round plain hval octet = bit_xor (fnv_64_mul plain hval) octet

unfoldable pub fnv_64a_round : Bool → ℕ → ℕ → ℕ
fnv_64a_round plain hval octet = fnv_64_mul plain (bit_xor hval octet)

-- `while (bp < be)`, with `len` octets to go.
unfoldable pub buf_loop : (ℕ → ℕ → ℕ) → List ℕ → ℕ → ℕ → Option ℕ
buf_loop round buf zero hval = some hval
buf_loop round [] (suc len) hval = none
buf_loop round (octet ∷ buf) (suc len) hval = buf_loop round buf len (round hval octet)

-- `while (*s)`
unfoldable pub str_loop : (ℕ → ℕ → ℕ) → List ℕ → ℕ → Option ℕ
str_loop round [] hval = none
str_loop round (octet ∷ str) hval =
    if octet == 0 then some hval else str_loop round str (round hval octet)

module _ (plain : Bool) where
  unfoldable pub fnv_32_buf : List ℕ → ℕ → ℕ → Option ℕ
  fnv_32_buf = buf_loop (fnv_32_round plain)

  unfoldable pub fnv_32_str : List ℕ → ℕ → Option ℕ
  fnv_32_str = str_loop (fnv_32_round plain)

  unfoldable pub fnv_32a_buf : List ℕ → ℕ → ℕ → Option ℕ
  fnv_32a_buf = buf_loop (fnv_32a_round plain)

  unfoldable pub fnv_32a_str : List ℕ → ℕ → Option ℕ
  fnv_32a_str = str_loop (fnv_32a_round plain)

  unfoldable pub fnv_64_buf : List ℕ → ℕ → ℕ → Option ℕ
  fnv_64_buf = buf_loop (fnv_64_round plain)

  unfoldable pub fnv_64_str : List ℕ → ℕ → Option ℕ
  fnv_64_str = str_loop (fnv_64_round plain)

  unfoldable pub fnv_64a_buf : List ℕ → ℕ → ℕ → Option ℕ
  fnv_64a_buf = buf_loop (fnv_64a_round plain)

  unfoldable pub fnv_64a_str : List ℕ → ℕ → Option ℕ
  fnv_64a_str = str_loop (fnv_64a_round plain)
