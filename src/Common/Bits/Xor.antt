-- ===== src/Common/Bits/Xor.antt =====
-- Exclusive or is an associative, commutative operation in which every number is its own inverse. It
-- commutes with shifts to the right and with remainders by powers of two.
use Prim.Native.Nat.{ℕ, zero, suc, ◌+◌, ◌*◌, ◌/◌, ◌%◌, ◌^◌, ◌<◌, bit_xor}
use mathlib.Core.Path.{◌≡◌, refl, ◌∙◌, sym}
use native.Mathlib.Nat.{
  pow-succ', div-div-eq-div-mul, one-le-pow, div-one, mod-one, mod-eq_of_lt, mod-lt,
}
use native.Mathlib.Omega.{arith}
use pmem_rts_cache.Common.Bits.Step.{bit_xor_step, bit_induction}

pub zero-bit_xor : (b : ℕ) → bit_xor 0 b ≡ b
zero-bit_xor b =
    bit_induction (λ b. bit_xor 0 b ≡ b) refl (λ b pos ih. omega (arith, bit_xor_step 0 b, ih)) b

pub bit_xor_comm : (a b : ℕ) → bit_xor a b ≡ bit_xor b a
bit_xor_comm a b =
    bit_induction (λ a. (b : ℕ) → bit_xor a b ≡ bit_xor b a)
      (λ b.
        zero-bit_xor b
        ∙ sym (
            bit_induction (λ b. bit_xor b 0 ≡ b) refl
              (λ b pos ih. omega (arith, bit_xor_step b 0, ih)) b))
      (λ a pos ih b. omega (arith, bit_xor_step a b, bit_xor_step b a, ih (b / 2))) a b

pub bit_xor-zero : (a : ℕ) → bit_xor a 0 ≡ a
bit_xor-zero a = bit_xor_comm a 0 ∙ zero-bit_xor a

pub bit_xor_self : (a : ℕ) → bit_xor a a ≡ 0
bit_xor_self a =
    bit_induction (λ a. bit_xor a a ≡ 0) refl (λ a pos ih. omega (arith, bit_xor_step a a, ih)) a

pub bit_xor-half : (a b : ℕ) → bit_xor a b / 2 ≡ bit_xor (a / 2) (b / 2)
bit_xor-half a b = omega (arith, bit_xor_step a b)

pub bit_xor-mod_two : (a b : ℕ) → bit_xor a b % 2 ≡ (a + b) % 2
bit_xor-mod_two a b = omega (arith, bit_xor_step a b)

pub bit_xor_assoc : (a b c : ℕ) → bit_xor (bit_xor a b) c ≡ bit_xor a (bit_xor b c)
bit_xor_assoc a b c =
    bit_induction (λ a. (b c : ℕ) → bit_xor (bit_xor a b) c ≡ bit_xor a (bit_xor b c))
      (λ b c. rw (zero-bit_xor b, zero-bit_xor (bit_xor b c)))
      (λ a pos ih b c.
        rw
          (
            bit_xor_step (bit_xor a b) c,
            bit_xor_step a (bit_xor b c),
            bit_xor-half a b,
            bit_xor-half b c,
          )
          (omega (arith, ih (b / 2) (c / 2), bit_xor-mod_two a b, bit_xor-mod_two b c)))
      a b c

-- `x ^ y ^ y` is `x`.
pub bit_xor_cancel : (a b : ℕ) → bit_xor (bit_xor a b) b ≡ a
bit_xor_cancel a b = bit_xor_assoc a b b ∙ rw bit_xor_self (bit_xor-zero a)

pub div-pow-suc : (a k : ℕ) → a / 2 ^ suc k ≡ a / 2 / 2 ^ k
div-pow-suc a k = rw pow-succ' (sym (div-div-eq-div-mul a 2 (2 ^ k)))

pub mod-pow-suc : (a k : ℕ) → a % 2 ^ suc k ≡ a / 2 % 2 ^ k * 2 + a % 2
mod-pow-suc a k = rw pow-succ' (grind (arith, one-le-pow))

pub bit_xor-div_pow : (k a b : ℕ) → bit_xor a b / 2 ^ k ≡ bit_xor (a / 2 ^ k) (b / 2 ^ k)
bit_xor-div_pow zero a b = simp div-one
bit_xor-div_pow (suc k) a b =
    rw (div-pow-suc (bit_xor a b) k, div-pow-suc a k, div-pow-suc b k, bit_xor-half a b)
      (bit_xor-div_pow k (a / 2) (b / 2))

pub bit_xor-mod_pow : (k a b : ℕ) → bit_xor a b % 2 ^ k ≡ bit_xor (a % 2 ^ k) (b % 2 ^ k)
bit_xor-mod_pow zero a b = simp mod-one
bit_xor-mod_pow (suc k) a b =
    let low : (c : ℕ) → c % 2 ^ suc k / 2 ≡ c / 2 % 2 ^ k = λ c. omega (arith, mod-pow-suc c k) in
    rw
      (
        mod-pow-suc (bit_xor a b) k,
        bit_xor_step (a % 2 ^ suc k) (b % 2 ^ suc k),
        low a,
        low b,
        bit_xor-half a b,
        bit_xor-mod_pow k (a / 2) (b / 2),
      )
      (omega (arith, bit_xor-mod_two a b, mod-pow-suc a k, mod-pow-suc b k))

pub bit_xor-lt_pow : (k a b : ℕ) → a < 2 ^ k → b < 2 ^ k → bit_xor a b < 2 ^ k
bit_xor-lt_pow k a b ha hb =
    let low : bit_xor a b % 2 ^ k ≡ bit_xor a b =
      bit_xor-mod_pow k a b ∙ rw (mod-eq_of_lt ha, mod-eq_of_lt hb) refl in
    omega (arith, mod-lt (bit_xor a b) (one-le-pow k 2 (omega arith)))
