-- ===== src/Hashing/Binary.antt =====
-- src/dual_domain/hashing/hash_funcs.h: `int2bin` and `murmur_hash_fp`.
-- A buffer is the list of its octets. `none` is a write in front of the buffer, or behind it.
use pmem_rts_cache.Common.{
  ℕ, zero, suc, ◌+◌, ◌-◌, ◌/◌, ◌%◌, ◌≤◌, ◌<◌, ◌≡◌, refl, sym, ◌∙◌, ap, subst, Option, none, some,
  List, ◌>>=◌, ◌==◌, if◌then◌else◌, get_elem?, get_or, get_or-set, set, length, length-set,
  replicate, ltb, leb, ◌&&◌, arith, get_elem?-eq-get_or, Bool-cases, inl, inr,
}
use native.Mathlib.Nat.{div-one}
use pmem_rts_cache.Common.Bits.{digit, digit-suc}
use pmem_rts_cache.Hashing.Mix.{murmur_hash_internal}

-- The loop of `int2bin` with `left` rounds to go, where the next character goes to the place before
-- `at`: the place of the last one written, and the buffer.
unfoldable pub int2bin_loop : ℕ → ℕ → ℕ → List ℕ → Option (ℕ × List ℕ)
int2bin_loop zero at a buffer = some (at, buffer)
int2bin_loop (suc left) zero a buffer = none
int2bin_loop (suc left) (suc at) a buffer = do
  old ← get_elem? buffer at
  int2bin_loop left at (a / 2) (set buffer at (a % 2 + 48))

unfoldable pub int2bin : ℕ → List ℕ → ℕ → Option (ℕ × List ℕ)
int2bin a buffer buf_size = int2bin_loop 32 buf_size a buffer

-- `murmur_hash_fp` hands its argument itself on as the address of the key, and not the buffer; `at` is
-- the octets that can be read from an address on.
unfoldable pub murmur_hash_fp : (ℕ → List ℕ) → ℕ → ℕ → Option ℕ
murmur_hash_fp at hash seed = do
  (start, buffer) ← int2bin hash (replicate 32 0) 32
  murmur_hash_internal (at hash) 32 seed

-- The characters of `left` digits stand in front of `at`, the highest first, and the rest of the buffer
-- is as it was.
abbrev pub Shows : ℕ → ℕ → ℕ → List ℕ → List ℕ → Type 0
Shows left at a old new =
    (i : ℕ)
    → get_or new i 0
      ≡ (if leb (at - left) i && ltb i at then 48 + digit (at - 1 - i) a else get_or old i 0)

Shows-suc :
    (left at a i : ℕ) (buffer : List ℕ) (octet : ℕ)
    → left ≤ at
    → at < length buffer
    → octet ≡ (
        if leb (at - left) i && ltb i at
        then 48 + digit (at - 1 - i) (a / 2)
        else get_or (set buffer at (a % 2 + 48)) i 0)
    → octet ≡ (
        if leb (suc at - suc left) i && ltb i (suc at)
        then 48 + digit (suc at - 1 - i) a
        else get_or buffer i 0)
Shows-suc left at a i buffer octet p q e =
    let written = get_or-set buffer at i (a % 2 + 48) 0 q in
    e ∙ elim (Bool-cases (ltb i at)) [
      | inl before ↦
          let next : suc at - 1 - i ≡ suc (at - 1 - i) = ground arith in
          rw (written, next, digit-suc (at - 1 - i) a) (ground arith)
      | inr behind ↦ elim (Bool-cases (at == i)) [
        | inl here ↦
            let last : suc at - 1 - i ≡ 0 = ground arith in
            rw (written, last, div-one a) (ground arith)
        | inr away ↦ rw written (ground arith)
      ]
    ]

int2bin_loop_lem :
    (left at a : ℕ) (buffer : List ℕ)
    → left ≤ at
    → at ≤ length buffer
    → (new : List ℕ) × (int2bin_loop left at a buffer ≡ some (at - left, new))
      × (length new ≡ length buffer)
      × Shows left at a buffer new
unfolding int2bin_loop
int2bin_loop_lem zero at a buffer p q =
    (buffer, ap (λ t. some (t, buffer)) (omega arith), refl, λ i. ground arith)
int2bin_loop_lem (suc left) zero a buffer p q = absurd (omega arith)
int2bin_loop_lem (suc left) (suc at) a buffer p q =
    let next = set buffer at (a % 2 + 48) in
    let same : length next ≡ length buffer = length-set buffer at (a % 2 + 48) in
    let moved : suc at - suc left ≡ at - left = omega arith in
    let (new, ran, len, shows) =
      int2bin_loop_lem left at (a / 2) next (omega arith) (omega arith) in
    (
      new,
      ap (λ o. o >>= λ old. int2bin_loop left at (a / 2) next)
            (get_elem?-eq-get_or buffer at 0 (omega arith))
          ∙ subst (λ t. int2bin_loop left at (a / 2) next ≡ some (t, new)) (sym moved) ran,
      len ∙ same,
      λ i. Shows-suc left at a i buffer (get_or new i 0) (omega arith) (omega arith) (shows i),
    )

-- `int2bin` on a buffer of 32 characters at least stays within it, and shows the 32 binary digits of
-- the number in the last 32 places of the size it is given, the highest first. It leaves the rest of
-- the buffer as it was, and returns the place before the first digit.
pub int2bin_lem :
    (a buf_size : ℕ) (buffer : List ℕ)
    → 32 ≤ buf_size
    → buf_size ≤ length buffer
    → (new : List ℕ) × (int2bin a buffer buf_size ≡ some (buf_size - 32, new))
      × (length new ≡ length buffer)
      × Shows 32 buf_size a buffer new
unfolding int2bin
int2bin_lem a buf_size buffer p q = int2bin_loop_lem 32 buf_size a buffer p q
