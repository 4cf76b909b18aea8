-- ===== src/Map/Creating.antt =====
-- src/map/hashmap_tx.c: `create_hashmap` and `hm_tx_create`.
use pmem_rts_cache.Common.{
  ℕ, ◌%◌, ◌<◌, ◌≡◌, ◌≢◌, refl, true, none, some, List, [], ◌∷◌, ◌++◌, flatten, replicate,
  get_or-replicate, arith,
}
use pmem_rts_cache.Pmem.{u32_mod}
use pmem_rts_cache.Map.Table.{hash_func_coeff_p, Chain, HashmapTx, zalloc_buckets}
use pmem_rts_cache.Map.Update.{draw_nonzero, draw, fresh_map, created, hm_tx_create}
use pmem_rts_cache.Map.Chains.{find, occurs}
use pmem_rts_cache.Map.Rows.{view}
use pmem_rts_cache.Map.Invariant.{IsValid, contents}

-- Every one of these results of `rand()` is zero in 32 bits.
abbrev pub AllZero : List ℕ → Type 0
AllZero [] = Unit {0}
AllZero (r ∷ rs) = (r % u32_mod ≡ 0) × AllZero rs

draw_nonzero-zeros :
    (zeros : List ℕ) (a : ℕ) (rs : List ℕ)
    → AllZero zeros
    → a % u32_mod ≢ 0
    → draw_nonzero (zeros ++ a ∷ rs) ≡ some (a % u32_mod, rs)
unfolding draw_nonzero
draw_nonzero-zeros [] a rs z h = ground arith
draw_nonzero-zeros (r ∷ zeros) a rs z h = ground (arith, draw_nonzero-zeros zeros a rs)

pub fresh_map-IsValid :
    (seed a b : ℕ) → a ≢ 0 → a < u32_mod → b < u32_mod → IsValid (fresh_map seed a b)
unfolding zalloc_buckets replicate flatten occurs
fresh_map-IsValid seed a b h ha hb = record {
  width = refl;
  pos = omega arith;
  small = omega arith;
  prime = refl;
  scale = (h, ha, hb);
  counted = refl;
  counts = omega arith;
  placed = λ q i. rw (get_or-replicate {A = Chain} 10 i []) (ground arith);
}

-- `hm_tx_create` on results of `rand()` that begin with any number of zeros, then have one that is
-- not zero in 32 bits and one more: if both transactions commit, the map is valid, empty under every
-- key, has the given seed, those two results in 32 bits and HASH_FUNC_COEFF_P as coefficients, and no other
-- result is drawn.
pub hm_tx_create_lem :
    (seed : ℕ) (zeros : List ℕ) (a b : ℕ) (rest : List ℕ)
    → AllZero zeros
    → a % u32_mod ≢ 0
    → (m : HashmapTx) × (hm_tx_create true true seed (zeros ++ a ∷ b ∷ rest)
        ≡ some (created m, rest))
      × IsValid m
      × (m.seed ≡ seed)
      × (m.count ≡ 0)
      × (m.hash_fun_a ≡ a % u32_mod)
      × (m.hash_fun_b ≡ b % u32_mod)
      × (m.hash_fun_p ≡ hash_func_coeff_p)
      × ((q : ℕ) → contents m q ≡ none)
unfolding hm_tx_create draw
hm_tx_create_lem seed zeros a b rest z h = (
  fresh_map seed (a % u32_mod) (b % u32_mod),
  rw (draw_nonzero-zeros zeros a (b ∷ rest) z h),
  fresh_map-IsValid seed (a % u32_mod) (b % u32_mod) h (omega arith) (omega arith),
  refl,
  refl,
  refl,
  refl,
  refl,
  λ q. unfold view find zalloc_buckets in rw (get_or-replicate {A = Chain} 10 _ []),
)
