-- ===== src/Examples/Hashing.antt =====
-- src/dual_domain/hashing on two octets.
use pmem_rts_cache.Common.{ℕ, ◌≡◌, ◌<◌, refl, true, false, some, List, [], ◌∷◌, arith}
use pmem_rts_cache.Hashing.Fnv.{
  buf_loop, fnv_32_round, fnv_32a_round, fnv_32_mul, fnv1_32_init, fnv_32_buf, fnv_32_str,
  fnv_32a_buf, fnv_32a_str, fnv_64_buf, fnv_64_str, fnv_64a_buf, fnv_64a_str,
}
use pmem_rts_cache.Hashing.Mix.{murmur_hash_internal}
use pmem_rts_cache.Pmem.{u32_mod}
use pmem_rts_cache.Hashing.Murmur.{unmurmur, unmurmur-murmur_hash_internal}
use pmem_rts_cache.Hashing.FnvFamily.{fnv_builds_agree}

abbrev two_octets : List ℕ
two_octets = 97 ∷ 98 ∷ []

fnv_builds_agree_example :
    (fnv_32_buf true two_octets 2 fnv1_32_init ≡ fnv_32_buf false two_octets 2 fnv1_32_init)
    × (fnv_32_str true two_octets fnv1_32_init ≡ fnv_32_str false two_octets fnv1_32_init)
    × (fnv_32a_buf true two_octets 2 fnv1_32_init ≡ fnv_32a_buf false two_octets 2 fnv1_32_init)
    × (fnv_32a_str true two_octets fnv1_32_init ≡ fnv_32a_str false two_octets fnv1_32_init)
    × (fnv_64_buf true two_octets 2 fnv1_32_init ≡ fnv_64_buf false two_octets 2 fnv1_32_init)
    × (fnv_64_str true two_octets fnv1_32_init ≡ fnv_64_str false two_octets fnv1_32_init)
    × (fnv_64a_buf true two_octets 2 fnv1_32_init ≡ fnv_64a_buf false two_octets 2 fnv1_32_init)
    × (fnv_64a_str true two_octets fnv1_32_init ≡ fnv_64a_str false two_octets fnv1_32_init)
fnv_builds_agree_example = fnv_builds_agree two_octets 2 fnv1_32_init

-- The hashes of the octets `ab` in 32 bits.
fnv_32_ab : fnv_32_buf false two_octets 2 fnv1_32_init ≡ some 0x70772d38
unfolding fnv_32_buf buf_loop fnv_32_round fnv_32_mul
fnv_32_ab = refl

fnv_32a_ab : fnv_32a_buf false two_octets 2 fnv1_32_init ≡ some 0x4d2505ca
unfolding fnv_32a_buf buf_loop fnv_32a_round fnv_32_mul
fnv_32a_ab = refl

abbrev seven_octets : List ℕ
seven_octets = 104 ∷ 101 ∷ 108 ∷ 108 ∷ 111 ∷ 33 ∷ 0 ∷ []

unmurmur-murmur_hash_internal_example :
    (y : ℕ) × (murmur_hash_internal seven_octets 6 99 ≡ some y)
    × (y < u32_mod)
    × (unmurmur seven_octets 6 y ≡ some 99)
unmurmur-murmur_hash_internal_example =
    unmurmur-murmur_hash_internal seven_octets 6 99 (omega arith) (omega arith)
