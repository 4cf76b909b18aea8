-- ===== src/Common/Bits/Step.antt =====
-- The native bit operations stand for a recursion on binary digits with fuel. Here the fuel is gone.
use Prim.Native.Nat.{ℕ, zero, suc, ◌+◌, ◌*◌, ◌/◌, ◌%◌, ◌≤◌, ◌<◌, min, max, bit_and, bit_or, bit_xor}
use Prim.Native.Nat.{digits, bitwise, bit_and-bitwise, bit_or-bitwise, bit_xor-bitwise, differ}
use mathlib.Core.Path.{◌≡◌, refl, ◌∙◌, ap}
use mathlib.Core.WellFounded
use native.Mathlib.Decide.{dec_lt}
use native.Mathlib.Omega.{arith}
use pmem_rts_cache.Common.Order.{lt_wf}

module _ (first : ℕ → ℕ) (combine : ℕ → ℕ → ℕ) where
  -- One unit of fuel above what the number needs changes nothing.
  spare_fuel :
      (fuel x y : ℕ)
      → x ≤ fuel
      → digits first combine (suc fuel) x y ≡ digits first combine fuel x y
  spare_fuel zero (suc x) y enough = absurd (omega arith)
  spare_fuel (suc fuel) (suc x) y enough =
      ap (λ upper. upper * 2 + combine (suc x % 2) (y % 2))
        (spare_fuel fuel (suc x / 2) (y / 2) (omega arith))
  spare_fuel zero zero y enough = refl
  spare_fuel (suc fuel) zero y enough = refl

  digits-bitwise :
      (fuel x y : ℕ) → x ≤ fuel → digits first combine fuel x y ≡ bitwise first combine x y
  digits-bitwise zero (suc x) y enough = absurd (omega arith)
  digits-bitwise zero zero y enough = refl
  digits-bitwise (suc fuel) x y enough = elim (dec_lt x (suc fuel)) [
    | yes less ↦ spare_fuel fuel x y (omega arith) ∙ digits-bitwise fuel x y (omega arith)
    | no exact ↦ let same : suc fuel ≡ x = omega arith in ap (λ n. digits first combine n x y) same
  ]

  -- The lowest digits are combined, and the halves, if `first` does so for zero.
  bitwise_halves :
      ((y : ℕ) → first y ≡ first (y / 2) * 2 + combine 0 (y % 2))
      → (x y : ℕ)
      → bitwise first combine x y
        ≡ bitwise first combine (x / 2) (y / 2) * 2 + combine (x % 2) (y % 2)
  bitwise_halves at_zero (suc x) y =
      ap (λ upper. upper * 2 + combine (suc x % 2) (y % 2))
        (digits-bitwise x (suc x / 2) (y / 2) (omega arith))
  bitwise_halves at_zero zero y = at_zero y

pub bit_and_step : (x y : ℕ) → bit_and x y ≡ bit_and (x / 2) (y / 2) * 2 + min (x % 2) (y % 2)
bit_and_step x y = simp bit_and-bitwise (bitwise_halves (λ _. 0) min (λ u. omega arith) x y)

pub bit_or_step : (x y : ℕ) → bit_or x y ≡ bit_or (x / 2) (y / 2) * 2 + max (x % 2) (y % 2)
bit_or_step x y = simp bit_or-bitwise (bitwise_halves (λ u. u) max (λ u. omega arith) x y)

differ-digits : (x y : ℕ) → x < 2 → y < 2 → differ x y ≡ (x + y) % 2
differ-digits zero y p q = omega arith
differ-digits (suc zero) zero p q = refl
differ-digits (suc zero) (suc zero) p q = refl
differ-digits (suc zero) (suc (suc y)) p q = absurd (omega arith)
differ-digits (suc (suc x)) y p q = absurd (omega arith)

differ-mod : (a b : ℕ) → differ (a % 2) (b % 2) ≡ (a + b) % 2
differ-mod a b = differ-digits (a % 2) (b % 2) (omega arith) (omega arith) ∙ omega arith

pub bit_xor_step : (x y : ℕ) → bit_xor x y ≡ bit_xor (x / 2) (y / 2) * 2 + (x + y) % 2
bit_xor_step x y =
    simp bit_xor-bitwise (bitwise_halves (λ u. u) differ (λ u. omega (arith, differ-mod 0 u)) x y)
    ∙ ap (λ low. bit_xor (x / 2) (y / 2) * 2 + low) (differ-mod x y)

-- From the half of a number to the number.
pub bit_induction : (P : ℕ → Type 0) → P 0 → ((a : ℕ) → 0 < a → P (a / 2) → P a) → (a : ℕ) → P a
bit_induction P base step a = WellFounded.induction lt_wf {C = P} a (λ n ih. go n ih)
  where
    go : (n : ℕ) → ((m : ℕ) → m < n → P m) → P n
    go zero ih = base
    go (suc n) ih = step (suc n) (omega arith) (ih (suc n / 2) (omega arith))
