-- ===== src/Hashing/Murmur.antt =====
-- src/dual_domain/hashing/hash_funcs.h: `murmur_hash_internal` stays in its buffer and loses nothing of the
-- seed.
use pmem_rts_cache.Common.{
  ℕ, zero, suc, ◌+◌, ◌-◌, ◌*◌, ◌/◌, ◌%◌, ◌^◌, ◌≤◌, ◌<◌, ◌≡◌, refl, sym, ◌∙◌, ap, Option, some, List,
  [], ◌∷◌, ◌>>=◌, length, bit_xor, bit_or, arith,
}
use native.Mathlib.Nat.{two-pow-succ, mul_assoc, mod-eq_of_lt}
use pmem_rts_cache.Common.Bits.{
  bit_or_step, bit_induction, bit_xor_cancel, bit_xor-lt_pow, bit_xor-mod_pow,
}
use pmem_rts_cache.Pmem.{u32_mod}
use pmem_rts_cache.Hashing.Fnv.{shl32}
use pmem_rts_cache.Hashing.Mix.{
  murmur_32_scramble, murmur_block, murmur_groups, murmur_rest, murmur_finalize,
  murmur_hash_internal,
}
use pmem_rts_cache.Hashing.MixLaws.{xorshift, unxorshift, unxorshift-xorshift}

bit_or-zero : (a : ℕ) → bit_or a 0 ≡ a
bit_or-zero =
    bit_induction (λ a. bit_or a 0 ≡ a) refl (λ a pos ih. omega (arith, bit_or_step a 0, ih))

twice_pow : (r m : ℕ) → m * 2 ^ suc r ≡ m * 2 ^ r * 2
twice_pow r m =
    let double : 2 ^ suc r ≡ 2 ^ r * 2 = omega (arith, two-pow-succ r) in
    ap (λ p. m * p) double ∙ sym (mul_assoc m (2 ^ r) 2)

-- Digits above `2 ^ r` and digits below it.
bit_or-disjoint : (r m b : ℕ) → b < 2 ^ r → bit_or (m * 2 ^ r) b ≡ m * 2 ^ r + b
bit_or-disjoint zero m b h =
    let e : b ≡ 0 = omega arith in rw (e, bit_or-zero (m * 1)) (omega arith)
bit_or-disjoint (suc r) m b h =
    let half : m * 2 ^ suc r / 2 ≡ m * 2 ^ r = omega (arith, twice_pow r m) in
    let even : m * 2 ^ suc r % 2 ≡ 0 = omega (arith, twice_pow r m) in
    let ih = bit_or-disjoint r m (b / 2) (omega (arith, two-pow-succ r)) in
    rw (bit_or_step (m * 2 ^ suc r) b, half, ih, even) (omega (arith, twice_pow r m))

scramble-lt : (k : ℕ) → murmur_32_scramble k < u32_mod
unfolding murmur_32_scramble
scramble-lt k = omega arith

-- The rotation to the left by 13.
abbrev rotl13 : ℕ → ℕ
rotl13 x = bit_or (shl32 x 13) (x / 2 ^ 19)

abbrev unrotl13 : ℕ → ℕ
unrotl13 y = y % 2 ^ 13 * 2 ^ 19 + y / 2 ^ 13

rotl13_lem : (x : ℕ) → x < u32_mod → (rotl13 x < u32_mod) × (unrotl13 (rotl13 x) ≡ x)
rotl13_lem x h =
    let parts : rotl13 x ≡ x % 2 ^ 19 * 2 ^ 13 + x / 2 ^ 19 =
      ap (λ t. bit_or t (x / 2 ^ 19)) (omega arith)
      ∙ bit_or-disjoint 13 (x % 2 ^ 19) (x / 2 ^ 19) (omega arith) in
    rw parts (omega arith, omega arith)

-- What undoes a group of four octets.
unblock : ℕ → ℕ → ℕ
unblock y k =
    bit_xor (unrotl13 ((y + u32_mod - 0xe6546b64) * 3435973837 % u32_mod)) (murmur_32_scramble k)

unblock-murmur_block :
    (h k : ℕ) → h < u32_mod → (murmur_block h k < u32_mod) × (unblock (murmur_block h k) k ≡ h)
unfolding unblock murmur_block
unblock-murmur_block h k fits =
    let s = murmur_32_scramble k in
    let x = bit_xor h s in
    let (small, back) = rotl13_lem x (bit_xor-lt_pow 32 h s fits (scramble-lt k)) in
    let y = rotl13 x in
    let undone : ((y * 5 % u32_mod + 0xe6546b64) % u32_mod + u32_mod - 0xe6546b64)
          * 3435973837
          % u32_mod
        ≡ y =
      omega (arith, small) in
    (omega arith, rw (undone, back) (bit_xor_cancel h s))

-- What undoes the loop over the groups, from the last one to the first, and what the loop leaves of the
-- key.
unmurmur_groups : ℕ → List ℕ → ℕ → ℕ
unfolding unblock
unmurmur_groups zero key y = y
unmurmur_groups (suc groups) (a ∷ b ∷ c ∷ d ∷ key) y =
    unblock (unmurmur_groups groups key y) (a + 256 * (b + 256 * (c + 256 * d)))
unmurmur_groups (suc groups) _ y = y

abbrev behind_groups : ℕ → List ℕ → List ℕ
behind_groups zero key = key
behind_groups (suc groups) (a ∷ b ∷ c ∷ d ∷ key) = behind_groups groups key
behind_groups (suc groups) _ = []

length-behind_groups :
    (groups : ℕ) (key : List ℕ)
    → 4 * groups ≤ length key
    → length (behind_groups groups key) + 4 * groups ≡ length key
length-behind_groups zero key fits = omega arith
length-behind_groups (suc groups) [] fits = absurd (omega arith)
length-behind_groups (suc groups) (a ∷ []) fits = absurd (omega arith)
length-behind_groups (suc groups) (a ∷ b ∷ []) fits = absurd (omega arith)
length-behind_groups (suc groups) (a ∷ b ∷ c ∷ []) fits = absurd (omega arith)
length-behind_groups (suc groups) (a ∷ b ∷ c ∷ d ∷ key) fits =
    omega (arith, length-behind_groups groups key (omega arith))

unmurmur-groups_lem :
    (groups : ℕ) (key : List ℕ) (h : ℕ)
    → 4 * groups ≤ length key
    → h < u32_mod
    → (y : ℕ) × (murmur_groups groups key h ≡ some (y, behind_groups groups key))
      × (y < u32_mod)
      × (unmurmur_groups groups key y ≡ h)
unfolding murmur_groups unmurmur_groups
unmurmur-groups_lem zero key h fits small = (h, refl, small, refl)
unmurmur-groups_lem (suc groups) [] h fits small = absurd (omega arith)
unmurmur-groups_lem (suc groups) (a ∷ []) h fits small = absurd (omega arith)
unmurmur-groups_lem (suc groups) (a ∷ b ∷ []) h fits small = absurd (omega arith)
unmurmur-groups_lem (suc groups) (a ∷ b ∷ c ∷ []) h fits small = absurd (omega arith)
unmurmur-groups_lem (suc groups) (a ∷ b ∷ c ∷ d ∷ key) h fits small =
    let k = a + 256 * (b + 256 * (c + 256 * d)) in
    let (fits', back) = unblock-murmur_block h k small in
    let (y, ran, small', undone) =
      unmurmur-groups_lem groups key (murmur_block h k) (omega arith) fits' in
    (y, ran, small', ap (λ t. unblock t k) undone ∙ back)

murmur_rest_lem : (n : ℕ) (key : List ℕ) → n ≤ length key → (k : ℕ) × (murmur_rest n key ≡ some k)
unfolding murmur_rest
murmur_rest_lem zero key fits = (0, refl)
murmur_rest_lem (suc n) [] fits = absurd (omega arith)
murmur_rest_lem (suc n) (a ∷ key) fits =
    let (k, ran) = murmur_rest_lem n key (omega arith) in (bit_or (shl32 k 8) a, rw ran refl)

-- The three rounds after `Finalize`, and what undoes them.
unfinalize : ℕ → ℕ → ℕ
unfinalize y len =
    let h2 = unxorshift 16 y in
    let h1 = unxorshift 13 (h2 * 2127672349 % u32_mod) in
    bit_xor (unxorshift 16 (h1 * 2781581891 % u32_mod)) (len % u32_mod)

unfinalize-murmur_finalize :
    (h len : ℕ)
    → h < u32_mod
    → (murmur_finalize h len < u32_mod) × (unfinalize (murmur_finalize h len) len ≡ h)
unfolding unfinalize murmur_finalize
unfinalize-murmur_finalize h len small =
    let h0 = bit_xor h len % u32_mod in
    let x0 = xorshift 16 h0 in
    let h1 = x0 * 0x85ebca6b % u32_mod in
    let x1 = xorshift 13 h1 in
    let h2 = x1 * 0xc2b2ae35 % u32_mod in
    let x0-lt : x0 < u32_mod = bit_xor-lt_pow 32 h0 (h0 / 2 ^ 16) (omega arith) (omega arith) in
    let x1-lt : x1 < u32_mod = bit_xor-lt_pow 32 h1 (h1 / 2 ^ 13) (omega arith) (omega arith) in
    let mul0 : h1 * 2781581891 % u32_mod ≡ x0 = omega (arith, x0-lt) in
    let mul1 : h2 * 2127672349 % u32_mod ≡ x1 = omega (arith, x1-lt) in
    let split : h0 ≡ bit_xor h (len % u32_mod) =
      bit_xor-mod_pow 32 h len ∙ rw (mod-eq_of_lt small) refl in
    (
      bit_xor-lt_pow 32 h2 (h2 / 2 ^ 16) (omega arith) (omega arith),
      rw
          (
            unxorshift-xorshift 16 h2 (omega arith),
            mul1,
            unxorshift-xorshift 13 h1 (omega arith),
            mul0,
            unxorshift-xorshift 16 h0 (omega arith),
            split,
          )
          (bit_xor_cancel h (len % u32_mod)),
    )

-- The seed, from the key and its hash.
unfoldable pub unmurmur : List ℕ → ℕ → ℕ → Option ℕ
unfolding murmur_rest unfinalize unmurmur_groups
unmurmur key len y = do
  k ← murmur_rest (len % 4) (behind_groups (len / 4) key)
  some (unmurmur_groups (len / 4) key (bit_xor (unfinalize y len) (murmur_32_scramble k)))

-- `murmur_hash_internal` of at most as many octets as the buffer has never reads outside of it, and gives
-- a number of 32 bits from which, with the key, the 32 bit seed can be had back: for each key, different
-- seeds have different hashes.
pub unmurmur-murmur_hash_internal :
    (key : List ℕ) (len seed : ℕ)
    → len ≤ length key
    → seed < u32_mod
    → (y : ℕ) × (murmur_hash_internal key len seed ≡ some y)
      × (y < u32_mod)
      × (unmurmur key len y ≡ some seed)
unfolding murmur_hash_internal unmurmur
unmurmur-murmur_hash_internal key len seed fits small =
    let (h, ran, h-lt, undone) = unmurmur-groups_lem (len / 4) key seed (omega arith) small in
    let left = length-behind_groups (len / 4) key (omega arith) in
    let (k, rest) = murmur_rest_lem (len % 4) (behind_groups (len / 4) key) (omega (arith, left)) in
    let s = murmur_32_scramble k in
    let (y-lt, back) =
      unfinalize-murmur_finalize (bit_xor h s) len (bit_xor-lt_pow 32 h s h-lt (scramble-lt k)) in
    (
      murmur_finalize (bit_xor h s) len,
      rw (ran, ◌>>=◌, rest) refl,
      y-lt,
      rw (rest, back, bit_xor_cancel h s, undone) refl,
    )
