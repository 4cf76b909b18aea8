-- ===== src/Hashing/FnvLaws.antt =====
-- src/dual_domain/hashing/fnv.c: what the FNV functions compute, in either build.
use pmem_rts_cache.Common.{
  ℕ, zero, suc, ◌+◌, ◌*◌, ◌%◌, ◌<◌, ◌≤◌, ◌≡◌, ◌≢◌, refl, sym, ◌∙◌, ap, Bool, true, false, some,
  List, [], ◌∷◌, ◌++◌, bit_xor, length, ◌>>=◌, arith,
}
use Prim.Native.Nat.add
use native.Mathlib.Nat.{zero-add}
use pmem_rts_cache.Common.Bits.{bit_xor_cancel, bit_xor-lt_pow}
use pmem_rts_cache.Pmem.{u32_mod, u64_mod}
use pmem_rts_cache.Hashing.Fnv.{
  fnv_32_prime, fnv_64_prime, fnv_32_mul, fnv_64_mul, fnv_32_round, fnv_32a_round, fnv_64_round,
  fnv_64a_round, buf_loop, str_loop,
}

-- The shifts and additions of the optimised build are the multiplication by the prime.
pub fnv_32_mul-prime : (plain : Bool) (h : ℕ) → fnv_32_mul plain h ≡ h * fnv_32_prime % u32_mod
unfolding fnv_32_mul
fnv_32_mul-prime true h = refl
fnv_32_mul-prime false h = omega arith

pub fnv_64_mul-prime : (plain : Bool) (h : ℕ) → fnv_64_mul plain h ≡ h * fnv_64_prime % u64_mod
unfolding fnv_64_mul
fnv_64_mul-prime true h = refl
fnv_64_mul-prime false h = omega arith

-- A multiplication by the inverse of the prime undoes the multiplication.
unmul-fnv_32_mul :
    (plain : Bool) (h : ℕ) → h < u32_mod → fnv_32_mul plain h * 899433627 % u32_mod ≡ h
unmul-fnv_32_mul plain h fits = rw (fnv_32_mul-prime plain h) (omega arith)

unmul-fnv_64_mul :
    (plain : Bool) (h : ℕ) → h < u64_mod → fnv_64_mul plain h * 14886173955864302971 % u64_mod ≡ h
unmul-fnv_64_mul plain h fits = rw (fnv_64_mul-prime plain h) (omega arith)

-- What the laws below need of a round on values below `bound`.
pub record IsRound (bound : ℕ) (round : ℕ → ℕ → ℕ) : Type 0 where
  pub round_lt : (h o : ℕ) → h < bound → o < 256 → round h o < bound
  pub round_injective :
      (h k o : ℕ) → h < bound → k < bound → o < 256 → round h o ≡ round k o → h ≡ k

fnv_32_mul-lt : (plain : Bool) (h : ℕ) → fnv_32_mul plain h < u32_mod
fnv_32_mul-lt plain h = rw (fnv_32_mul-prime plain h) (omega arith)

fnv_64_mul-lt : (plain : Bool) (h : ℕ) → fnv_64_mul plain h < u64_mod
fnv_64_mul-lt plain h = rw (fnv_64_mul-prime plain h) (omega arith)

fnv_32_mul_injective :
    (plain : Bool) (h k : ℕ)
    → h < u32_mod
    → k < u32_mod
    → fnv_32_mul plain h ≡ fnv_32_mul plain k
    → h ≡ k
fnv_32_mul_injective plain h k p q e =
    sym (unmul-fnv_32_mul plain h p)
    ∙ ap (λ t. t * 899433627 % u32_mod) e
    ∙ unmul-fnv_32_mul plain k q

fnv_64_mul_injective :
    (plain : Bool) (h k : ℕ)
    → h < u64_mod
    → k < u64_mod
    → fnv_64_mul plain h ≡ fnv_64_mul plain k
    → h ≡ k
fnv_64_mul_injective plain h k p q e =
    sym (unmul-fnv_64_mul plain h p)
    ∙ ap (λ t. t * 14886173955864302971 % u64_mod) e
    ∙ unmul-fnv_64_mul plain k q

bit_xor_injective : (a b o : ℕ) → bit_xor a o ≡ bit_xor b o → a ≡ b
bit_xor_injective a b o e = sym (bit_xor_cancel a o) ∙ ap (λ t. bit_xor t o) e ∙ bit_xor_cancel b o

pub fnv_32_round-IsRound : (plain : Bool) → IsRound u32_mod (fnv_32_round plain)
unfolding fnv_32_round
fnv_32_round-IsRound plain = record {
  round_lt = λ h o p q. bit_xor-lt_pow 32 _ o (fnv_32_mul-lt plain h) (omega arith);
  round_injective = λ h k o p q r e. fnv_32_mul_injective plain h k p q (bit_xor_injective _ _ o e);
}

pub fnv_32a_round-IsRound : (plain : Bool) → IsRound u32_mod (fnv_32a_round plain)
unfolding fnv_32a_round
fnv_32a_round-IsRound plain = record {
  round_lt = λ h o p q. fnv_32_mul-lt plain (bit_xor h o);
  round_injective = λ h k o p q r e. bit_xor_injective h k o (
      fnv_32_mul_injective plain _ _ (bit_xor-lt_pow 32 h o p (omega arith))
        (bit_xor-lt_pow 32 k o q (omega arith)) e);
}

pub fnv_64_round-IsRound : (plain : Bool) → IsRound u64_mod (fnv_64_round plain)
unfolding fnv_64_round
fnv_64_round-IsRound plain = record {
  round_lt = λ h o p q. bit_xor-lt_pow 64 _ o (fnv_64_mul-lt plain h) (omega arith);
  round_injective = λ h k o p q r e. fnv_64_mul_injective plain h k p q (bit_xor_injective _ _ o e);
}

pub fnv_64a_round-IsRound : (plain : Bool) → IsRound u64_mod (fnv_64a_round plain)
unfolding fnv_64a_round
fnv_64a_round-IsRound plain = record {
  round_lt = λ h o p q. fnv_64_mul-lt plain (bit_xor h o);
  round_injective = λ h k o p q r e. bit_xor_injective h k o (
      fnv_64_mul_injective plain _ _ (bit_xor-lt_pow 64 h o p (omega arith))
        (bit_xor-lt_pow 64 k o q (omega arith)) e);
}

-- Every element is an octet.
abbrev pub AllOctets : List ℕ → Type 0
AllOctets [] = Unit {0}
AllOctets (o ∷ os) = (o < 256) × AllOctets os

-- No element is zero.
abbrev pub NoZero : List ℕ → Type 0
NoZero [] = Unit {0}
NoZero (o ∷ os) = (o ≢ 0) × NoZero os

pub str_loop-buf_loop :
    (round : ℕ → ℕ → ℕ) (s rest : List ℕ) (h : ℕ)
    → NoZero s
    → str_loop round (s ++ 0 ∷ rest) h ≡ buf_loop round s (length s) h
unfolding str_loop buf_loop
str_loop-buf_loop round [] rest h nz = refl
str_loop-buf_loop round (o ∷ s) rest h nz =
    ground (arith, str_loop-buf_loop round s rest (round h o))

pub buf_loop-append :
    (round : ℕ → ℕ → ℕ) (xs ys : List ℕ) (n h : ℕ)
    → buf_loop round (xs ++ ys) (length xs + n) h
      ≡ (buf_loop round xs (length xs) h >>= buf_loop round ys n)
unfolding buf_loop
buf_loop-append round [] ys n h = rw zero-add refl
buf_loop-append round (x ∷ xs) ys n h =
    rw (add.suc (length xs) n) (buf_loop-append round xs ys n (round h x))

module _ {bound : ℕ} {round : ℕ → ℕ → ℕ} (r : IsRound bound round) where
  pub buf_loop-lt :
      (buf : List ℕ) (len h : ℕ)
      → AllOctets buf
      → len ≤ length buf
      → h < bound
      → (out : ℕ) × (buf_loop round buf len h ≡ some out) × (out < bound)
  unfolding buf_loop
  buf_loop-lt buf zero h os fits lt = (h, refl, lt)
  buf_loop-lt [] (suc len) h os fits lt = absurd (omega arith)
  buf_loop-lt (o ∷ buf) (suc len) h os fits lt =
      buf_loop-lt buf len (round h o) os.1 (omega arith) (r.round_lt h o lt os.0)

  pub buf_loop_injective :
      (buf : List ℕ) (len h k out : ℕ)
      → AllOctets buf
      → h < bound
      → k < bound
      → buf_loop round buf len h ≡ some out
      → buf_loop round buf len k ≡ some out
      → h ≡ k
  unfolding buf_loop
  buf_loop_injective buf zero h k out os p q e f = cc
  buf_loop_injective [] (suc len) h k out os p q e f = cc
  buf_loop_injective (o ∷ buf) (suc len) h k out os p q e f = r.round_injective h k o p q os.0 (
      buf_loop_injective buf len (round h o) (round k o) out os.1 (r.round_lt h o p os.0)
        (r.round_lt k o q os.0) e f)
