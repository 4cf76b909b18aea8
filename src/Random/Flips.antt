-- ===== src/Random/Flips.antt =====
-- src/random/random.h: the sequence of results of `rand_bool`.
use pmem_rts_cache.Common.{
  ℕ, zero, suc, ◌-◌, ◌/◌, ◌%◌, ◌≤◌, ◌≡◌, refl, Bool, List, [], ◌∷◌, length, ◌==◌, arith,
}
use pmem_rts_cache.Random.{Coin, gseed, refill, rand_bool, lcg64_temper}

-- The results of one call for each pair of results of `rand()`, and the static variables after them.
unfoldable pub flips : List (ℕ × ℕ) → Coin → List Bool × Coin
flips [] coin = ([], coin)
flips (rands ∷ more) coin =
    let (b, coin') = rand_bool rands coin in let (bs, coin'') = flips more coin' in (b ∷ bs, coin'')

-- The digits of `bits`, the lowest first.
unfoldable pub low_digits : ℕ → ℕ → List Bool
low_digits zero bits = []
low_digits (suc n) bits = (bits % 2 == 1) ∷ low_digits n (bits / 2)

flips-refilled :
    (draws : List (ℕ × ℕ)) (coin : Coin)
    → length draws ≤ coin.gcount
    → (flips draws coin).0 ≡ low_digits (length draws) coin.rbits
unfolding flips low_digits rand_bool
flips-refilled [] coin h = refl
flips-refilled (rands ∷ more) coin h =
    let full : refill rands coin ≡ coin = ground arith in
    rw
      (
        full,
        flips-refilled more (record { gcount = coin.gcount - 1; rbits = coin.rbits / 2 })
            (omega arith),
      )
      refl

-- When the digits have run out, the next 31 calls of `rand_bool` at most give the lowest digits of one
-- result of `lcg64_temper`, the lowest first. Its seed is what the first of these calls draws; what the
-- others draw has no influence.
pub flips_lem :
    (rands : ℕ × ℕ) (more : List (ℕ × ℕ)) (coin : Coin)
    → coin.gcount ≡ 0
    → length more ≤ 30
    → (flips (rands ∷ more) coin).0
      ≡ low_digits (length (rands ∷ more)) (lcg64_temper (gseed rands)).1
unfolding flips low_digits rand_bool
flips_lem rands more coin empty h =
    let bits = (lcg64_temper (gseed rands)).1 in
    let full : refill rands coin ≡ record { gcount = 31; rbits = bits } = ground arith in
    rw (full, flips-refilled more (record { gcount = 30; rbits = bits / 2 }) h) refl
