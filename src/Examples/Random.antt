-- ===== src/Examples/Random.antt =====
-- src/random/random.h on small seeds.
use pmem_rts_cache.Common.{ℕ, List, [], ◌∷◌, length, refl, ◌≡◌, ◌/◌, ◌^◌, arith}
use pmem_rts_cache.Random.Flips.{flips, low_digits, flips_lem}
use pmem_rts_cache.Random.{Coin, gseed, lcg64_temper}
use pmem_rts_cache.Random.Temper.{untemper, previous_seed, lcg64_temper-inverse}

lcg64_temper-inverse_example :
    (previous_seed (lcg64_temper 12345).0 ≡ 12345)
    × (untemper (lcg64_temper 12345).1 ≡ (lcg64_temper 12345).0 / 2 ^ 32)
lcg64_temper-inverse_example = lcg64_temper-inverse 12345 (omega arith)

abbrev two_draws : List (ℕ × ℕ)
two_draws = (8, 9) ∷ (10, 11) ∷ []

abbrev used_up : Coin
used_up = record { gcount = 0; rbits = 0 }

flips_lem_example :
    (flips ((6, 7) ∷ two_draws) used_up).0
    ≡ low_digits (length ((6, 7) ∷ two_draws)) (lcg64_temper (gseed (6, 7))).1
flips_lem_example = flips_lem (6, 7) two_draws used_up refl (omega arith)
