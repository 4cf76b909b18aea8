-- ===== src/Common/Bits/Fields.antt =====
-- Masks of low bits, and single digits.
use Prim.Native.Nat.{ℕ, zero, suc, ◌+◌, ◌-◌, ◌/◌, ◌%◌, ◌^◌, ◌≤◌, ◌<◌, max, bit_and, bit_or}
use mathlib.Core.Path.{◌≡◌, refl, ◌∙◌, sym, ap}
use native.Mathlib.Nat.{two-pow-succ, one-le-pow, div-one, mod-one, add-zero}
use native.Mathlib.Decide.{dec_lt}
use native.Mathlib.Omega.{arith}
use pmem_rts_cache.Common.Bits.Step.{bit_or_step, bit_and_step, bit_induction}
use pmem_rts_cache.Common.Bits.Xor.{div-pow-suc, mod-pow-suc}

bit_and-zero : (a : ℕ) → bit_and a 0 ≡ 0
bit_and-zero a =
    bit_induction (λ a. bit_and a 0 ≡ 0) refl (λ a pos ih. omega (arith, bit_and_step a 0, ih)) a

-- `x & ((1 << k) - 1)` is the remainder by `2 ^ k`.
pub bit_and-mask : (k a : ℕ) → bit_and a (2 ^ k - 1) ≡ a % 2 ^ k
bit_and-mask zero a = bit_and-zero a ∙ sym (mod-one a)
bit_and-mask (suc k) a =
    let pos = one-le-pow k 2 (omega arith) in
    let half : (2 ^ suc k - 1) / 2 ≡ 2 ^ k - 1 = omega (arith, two-pow-succ k) in
    rw (bit_and_step a (2 ^ suc k - 1), half, bit_and-mask k (a / 2), mod-pow-suc a k)
      (omega (arith, two-pow-succ k))

-- The digit of weight `2 ^ i`.
abbrev pub digit : ℕ → ℕ → ℕ
digit i a = a / 2 ^ i % 2

pub digit-suc : (i a : ℕ) → digit (suc i) a ≡ digit i (a / 2)
digit-suc i a = rw (div-pow-suc a i)

pub digit-bit_or : (i a b : ℕ) → digit i (bit_or a b) ≡ max (digit i a) (digit i b)
digit-bit_or zero a b =
    rw (div-one (bit_or a b), div-one a, div-one b) (omega (arith, bit_or_step a b))
digit-bit_or (suc i) a b =
    let half : bit_or a b / 2 ≡ bit_or (a / 2) (b / 2) = omega (arith, bit_or_step a b) in
    rw (digit-suc i (bit_or a b), digit-suc i a, digit-suc i b, half)
      (digit-bit_or i (a / 2) (b / 2))

pub digit-shift : (i k a : ℕ) → digit i (a / 2 ^ k) ≡ digit (i + k) a
digit-shift i zero a = rw (div-one a, add-zero i)
digit-shift i (suc k) a =
    rw (div-pow-suc a k, digit-shift i k (a / 2), ← digit-suc (i + k) a)
      (ap (λ j. digit j a) (omega arith))

-- A number below `2 ^ l` whose `l` digits are all one.
pub digits_one : (l a : ℕ) → a < 2 ^ l → ((i : ℕ) → i < l → digit i a ≡ 1) → a ≡ 2 ^ l - 1
digits_one zero a h ones = omega arith
digits_one (suc l) a h ones =
    let upper =
      digits_one l (a / 2) (omega (arith, two-pow-succ l))
        (λ i p. sym (digit-suc i a) ∙ ones (suc i) (omega arith)) in
    let odd : a % 2 ≡ 1 = rw (div-one a) at (ones 0 (omega arith)) in
    omega (arith, upper, two-pow-succ l, one-le-pow l 2 (omega arith))

pub bit_or-lt_pow : (k a b : ℕ) → a < 2 ^ k → b < 2 ^ k → bit_or a b < 2 ^ k
bit_or-lt_pow zero a b ha hb =
    let ea : a ≡ 0 = omega arith in let eb : b ≡ 0 = omega arith in rw (ea, eb) (omega arith)
bit_or-lt_pow (suc k) a b ha hb = omega (
  arith,
  bit_or_step a b,
  two-pow-succ k,
  bit_or-lt_pow k (a / 2) (b / 2) (omega (arith, two-pow-succ k)) (omega (arith, two-pow-succ k)),
)

-- The place of the highest one.
pub top_digit : (m : ℕ) → 0 < m → (l : ℕ) × (2 ^ l ≤ m) × (m < 2 ^ suc l)
top_digit =
    bit_induction (λ m. 0 < m → (l : ℕ) × (2 ^ l ≤ m) × (m < 2 ^ suc l)) (λ h. absurd (omega arith))
      λ m pos ih h. elim (dec_lt 0 (m / 2)) [
        | no small ↦ (0, omega arith, omega arith)
        | yes big ↦
            let (l, lo, hi) = ih big in
            (suc l, omega (arith, two-pow-succ l), omega (arith, two-pow-succ (suc l)))
      ]
