-- ===== src/Hashing/MixLaws.antt =====
-- src/dual_domain/hashing/hash_funcs.h: the mixing functions lose nothing.
use pmem_rts_cache.Common.{ℕ, ◌*◌, ◌/◌, ◌%◌, ◌^◌, ◌<◌, ◌≡◌, refl, ◌∙◌, ap, bit_xor, arith}
use pmem_rts_cache.Common.Bits.{
  bit_xor_cancel, bit_xor-lt_pow, bit_xor-div_pow, bit_xor_assoc, bit_xor-zero,
}
use pmem_rts_cache.Pmem.{u64_mod}
use pmem_rts_cache.Hashing.Mix.{hash_fp}

-- `x ^ (x >> k)`, and what undoes it if three such shifts leave nothing.
abbrev pub xorshift : ℕ → ℕ → ℕ
xorshift k x = bit_xor x (x / 2 ^ k)

abbrev pub unxorshift : ℕ → ℕ → ℕ
unxorshift k y = bit_xor (bit_xor y (y / 2 ^ k)) (y / 2 ^ k / 2 ^ k)

pub unxorshift-xorshift :
    (k x : ℕ) → x / 2 ^ k / 2 ^ k / 2 ^ k ≡ 0 → unxorshift k (xorshift k x) ≡ x
unxorshift-xorshift k x gone =
    let b = x / 2 ^ k in
    let c = b / 2 ^ k in
    rw
      (
        bit_xor-div_pow k x b,
        bit_xor-div_pow k b c,
        gone,
        bit_xor-zero c,
        ← bit_xor_assoc (bit_xor x b) b c,
        bit_xor_cancel x b,
      )
      (bit_xor_cancel x c)

-- The two rounds of `hash_fp`, and what undoes them.
mix1 : ℕ → ℕ
mix1 x = xorshift 30 x * 0xbf58476d1ce4e5b9 % u64_mod

mix2 : ℕ → ℕ
mix2 x = xorshift 27 x * 0x94d049bb133111eb % u64_mod

unmix1 : ℕ → ℕ
unmix1 y = unxorshift 30 (y * 10871156337175269513 % u64_mod)

unmix2 : ℕ → ℕ
unmix2 y = unxorshift 27 (y * 3573116690164977347 % u64_mod)

unmul1 :
    (x : ℕ) → x < u64_mod → x * 0xbf58476d1ce4e5b9 % u64_mod * 10871156337175269513 % u64_mod ≡ x
unmul1 x h = omega arith

unmul2 :
    (x : ℕ) → x < u64_mod → x * 0x94d049bb133111eb % u64_mod * 3573116690164977347 % u64_mod ≡ x
unmul2 x h = omega arith

unmix1-mix1 : (x : ℕ) → x < u64_mod → unmix1 (mix1 x) ≡ x
unfolding mix1 unmix1
unmix1-mix1 x h =
    rw (unmul1 (xorshift 30 x) (bit_xor-lt_pow 64 x _ h (omega arith)))
      (unxorshift-xorshift 30 x (omega arith))

unmix2-mix2 : (x : ℕ) → x < u64_mod → unmix2 (mix2 x) ≡ x
unfolding mix2 unmix2
unmix2-mix2 x h =
    rw (unmul2 (xorshift 27 x) (bit_xor-lt_pow 64 x _ h (omega arith)))
      (unxorshift-xorshift 27 x (omega arith))

mix1-lt : (x : ℕ) → mix1 x < u64_mod
unfolding mix1
mix1-lt x = omega arith

mix2-lt : (x : ℕ) → mix2 x < u64_mod
unfolding mix2
mix2-lt x = omega arith

-- The inverse of `hash_fp`.
unfoldable unhash_fp : ℕ → ℕ
unfolding unmix1 unmix2
unhash_fp y = unmix1 (unmix2 (unxorshift 31 y))

hash_fp-mix : (x : ℕ) → hash_fp x ≡ xorshift 31 (mix2 (mix1 x))
unfolding hash_fp mix1 mix2
hash_fp-mix x = refl

-- `hash_fp` loses nothing: from its result the 64 bit argument can be had back.
unhash_fp-hash_fp : (x : ℕ) → x < u64_mod → unhash_fp (hash_fp x) ≡ x
unfolding unhash_fp
unhash_fp-hash_fp x h =
    let y = mix2 (mix1 x) in
    let last : unxorshift 31 (hash_fp x) ≡ y =
      ap (unxorshift 31) (hash_fp-mix x)
      ∙ unxorshift-xorshift 31 y (omega (arith, mix2-lt (mix1 x))) in
    ap unmix1 (ap unmix2 last ∙ unmix2-mix2 (mix1 x) (mix1-lt x)) ∙ unmix1-mix1 x h
