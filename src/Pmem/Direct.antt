-- ===== src/Pmem/Direct.antt =====
-- src/include/libpmemobj/base.h: `pmemobj_direct_inline`, which D_RO and D_RW expand to, and its cache of
-- the last pool. An address is a number, and 0 is NULL. What pmemobj_pool_by_oid knows is a parameter:
-- the address of the pool that has an identifier.
use pmem_rts_cache.Common.{
  ℕ, ◌+◌, ◌%◌, ◌≤◌, ◌≡◌, ◌≢◌, refl, sym, ◌∙◌, ap, inl, inr, Bool, false, not, ◌||◌, List, [], ◌∷◌,
  ◌==◌, if◌then◌else◌, Bool-cases, ==_false_ne, ne→==_false, ap₂, arith,
}
use pmem_rts_cache.Pmem.{PmemOid, u64_mod}

-- `struct _pobj_pcache`
pub record PoolCache : Type 0 where
  pub pop : ℕ
  pub uuid_lo : ℕ
  pub invalidate : ℕ

-- `oid.off == 0 || oid.pool_uuid_lo == 0`
abbrev pub points_nowhere : PmemOid → Bool
points_nowhere o = o.off == 0 || o.pool_uuid_lo == 0

abbrev pub is_stale : ℕ → PmemOid → PoolCache → Bool
is_stale invalidate o cache =
    not (invalidate == cache.invalidate) || not (cache.uuid_lo == o.pool_uuid_lo)

-- The pool is looked up again.
abbrev pub refreshed : (ℕ → ℕ) → ℕ → PmemOid → ℕ × PoolCache
refreshed by_uuid invalidate o =
    if by_uuid o.pool_uuid_lo == 0
    then (0, record { pop = 0; uuid_lo = 0; invalidate = invalidate })
    else (
      (by_uuid o.pool_uuid_lo + o.off) % u64_mod,
      record { pop = by_uuid o.pool_uuid_lo; uuid_lo = o.pool_uuid_lo; invalidate = invalidate },
    )

-- `pmemobj_direct_inline`, where `_pobj_cache_invalidate` is `invalidate`.
unfoldable pub pmemobj_direct_inline : (ℕ → ℕ) → ℕ → PmemOid → PoolCache → ℕ × PoolCache
pmemobj_direct_inline by_uuid invalidate o cache =
    if points_nowhere o
    then (0, cache)
    else if is_stale invalidate o cache
    then refreshed by_uuid invalidate o
    else ((cache.pop + o.off) % u64_mod, cache)

-- The address of an object without a cache.
abbrev pub direct : (ℕ → ℕ) → PmemOid → ℕ
direct by_uuid o =
    if points_nowhere o || by_uuid o.pool_uuid_lo == 0
    then 0
    else (by_uuid o.pool_uuid_lo + o.off) % u64_mod

-- What a program does: it asks for an address, or pools are opened or closed, whereupon libpmemobj
-- counts `_pobj_cache_invalidate` up.
pub data Use : Type 0 where
  look_up : PmemOid → Use
  change : (ℕ → ℕ) → Use

unfoldable pub addresses : (ℕ → ℕ) → ℕ → PoolCache → List Use → List ℕ
addresses by_uuid invalidate cache [] = []
addresses by_uuid invalidate cache (look_up o ∷ us) =
    let (at, cache') = pmemobj_direct_inline by_uuid invalidate o cache in
    at ∷ addresses by_uuid invalidate cache' us
addresses by_uuid invalidate cache (change by_uuid' ∷ us) =
    addresses by_uuid' (invalidate + 1) cache us

abbrev pub addresses_of : (ℕ → ℕ) → List Use → List ℕ
addresses_of by_uuid [] = []
addresses_of by_uuid (look_up o ∷ us) = direct by_uuid o ∷ addresses_of by_uuid us
addresses_of by_uuid (change by_uuid' ∷ us) = addresses_of by_uuid' us

-- The cache is of the past, and where it is of the present, it has the pool of its identifier, or the
-- identifier 0.
pub record IsCoherent (by_uuid : ℕ → ℕ) (invalidate : ℕ) (cache : PoolCache) : Type 0 where
  pub past : cache.invalidate ≤ invalidate
  pub same_pool :
      cache.invalidate ≡ invalidate
      → cache.uuid_lo ≢ 0
      → (by_uuid cache.uuid_lo ≡ cache.pop) × (cache.pop ≢ 0)

module _ (by_uuid : ℕ → ℕ) (invalidate : ℕ) where
  refreshed_lem :
      (o : PmemOid)
      → points_nowhere o ≡ false
      → ((refreshed by_uuid invalidate o).0 ≡ direct by_uuid o)
        × IsCoherent by_uuid invalidate (refreshed by_uuid invalidate o).1
  refreshed_lem o h = elim (Bool-cases (by_uuid o.pool_uuid_lo == 0)) [
    | inl e ↦ rw (e, h) (refl, record { past = omega arith; same_pool = λ p q. absurd (q refl) })
    | inr e ↦
        rw (e, h)
          (
            refl,
            record {
              past = omega arith;
              same_pool = λ p q. (refl, ==_false_ne (by_uuid o.pool_uuid_lo) 0 e);
            },
          )
  ]

  current :
      (o : PmemOid) (cache : PoolCache)
      → points_nowhere o ≡ false
      → is_stale invalidate o cache ≡ false
      → (cache.invalidate ≡ invalidate) × (cache.uuid_lo ≡ o.pool_uuid_lo) × (o.pool_uuid_lo ≢ 0)
  current o cache e s = ground arith

  pmemobj_direct_inline_lem :
      (o : PmemOid) (cache : PoolCache)
      → IsCoherent by_uuid invalidate cache
      → ((pmemobj_direct_inline by_uuid invalidate o cache).0 ≡ direct by_uuid o)
        × IsCoherent by_uuid invalidate (pmemobj_direct_inline by_uuid invalidate o cache).1
  unfolding pmemobj_direct_inline
  pmemobj_direct_inline_lem o cache c = elim (Bool-cases (points_nowhere o)) [
    | inl nowhere ↦ (rw nowhere refl, rw nowhere c)
    | inr e ↦ elim (Bool-cases (is_stale invalidate o cache)) [
      | inl stale ↦
          let (same, coherent) = refreshed_lem o e in
          (rw (e, stale) (rw e at same), rw (e, stale) coherent)
      | inr s ↦
          let (inv, uuid, some_pool) = current o cache e s in
          let (pop, pos) = c.same_pool inv (λ z. some_pool (sym uuid ∙ z)) in
          let known : by_uuid o.pool_uuid_lo ≡ cache.pop = ap by_uuid (sym uuid) ∙ pop in
          (rw (e, s, known, ne→==_false cache.pop 0 pos) refl, rw (e, s) c)
    ]
  ]

-- The address that D_RO and D_RW give is that of the pool at the time, whatever was looked up before and
-- however pools were opened and closed in between.
pub addresses_lem :
    (us : List Use) (by_uuid : ℕ → ℕ) (invalidate : ℕ) (cache : PoolCache)
    → IsCoherent by_uuid invalidate cache
    → addresses by_uuid invalidate cache us ≡ addresses_of by_uuid us
unfolding addresses
addresses_lem [] by_uuid invalidate cache c = refl
addresses_lem (look_up o ∷ us) by_uuid invalidate cache c =
    let (same, c') = pmemobj_direct_inline_lem by_uuid invalidate o cache c in
    ap₂ (λ a l. a ∷ l) same
      (addresses_lem us by_uuid invalidate (pmemobj_direct_inline by_uuid invalidate o cache).1 c')
addresses_lem (change by_uuid' ∷ us) by_uuid invalidate cache c =
    addresses_lem us by_uuid' (invalidate + 1) cache (record {
      past = omega (arith, c.past);
      same_pool = λ p q. absurd (omega (arith, c.past, p));
    })
