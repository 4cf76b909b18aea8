-- ===== src/Filter/Interface.antt =====
-- src/dual_domain/filter/cuckoo_filter.h: the interface of the cuckoo filter, and `scf_lookup` of
-- src/dual_domain/filter/scalable_cuckoo_filter.c as its client, over filters that are there.
use pmem_rts_cache.Common.{
  ℕ, ◌+◌, ◌≤◌, ◌≡◌, refl, ap, Bool, false, ◌||◌, Option, some, List, [], ◌∷◌, ◌++◌, ◌>>=◌,
  get_elem?, set, if◌then◌else◌, length, Bool-cases, inl, inr, arith,
}
use pmem_rts_cache.Hashing.FnvLaws.{AllOctets}
use pmem_rts_cache.Filter.Bucket.{CInt, naught, plus_one, truthy}
use pmem_rts_cache.Filter.Util.{Undefined, Tables}
use pmem_rts_cache.Filter.Indices.{IsInit}
use pmem_rts_cache.Filter.Cuckoo.{
  CuckooFilter, cf_new, cf_lookup, cf_insert, cf_insert_unique, cf_delete, cf_reset,
}
use pmem_rts_cache.Filter.Outcomes.{HasBlock}
use pmem_rts_cache.Filter.Keys.{cf_lookup_lem}
use pmem_rts_cache.Filter.Scalable.{
  cf_free, or_null, each_filter, over_filters, ScalableCuckooFilter, scf_lookup,
}

-- The functions that the header declares. `new` takes whether its allocations succeed, and the
-- insertions what `rand_bool()` and `rand()` give.
pub record FilterOps (F : Type 0) : Type 0 where
  pub new : Bool → Bool → ℕ → Option (CInt × Option F)
  pub free : Option F → Option CInt
  pub reset : F → Option (CInt × F)
  pub lookup : F → List ℕ → ℕ → Option CInt
  pub insert : Bool → List ℕ → F → List ℕ → ℕ → Option (CInt × F)
  pub insert_unique : Bool → List ℕ → F → List ℕ → ℕ → Option (CInt × F)
  pub delete : F → List ℕ → ℕ → Option (CInt × F)

abbrev pub cuckoo_filter : Tables → Undefined → Bool → FilterOps CuckooFilter
cuckoo_filter t u plain = record {
  new = cf_new;
  free = cf_free;
  reset = cf_reset;
  lookup = cf_lookup t u plain;
  insert = cf_insert t u plain;
  insert_unique = cf_insert_unique t u plain;
  delete = cf_delete t u plain;
}

-- The filters of the array, none of them NULL.
abbrev pub present : List CuckooFilter → List (Option CuckooFilter)
present [] = []
present (cf ∷ cfs) = some cf ∷ present cfs

module _ (look : CuckooFilter → Option CInt) where
  -- What a lookup in each filter gives.
  abbrev pub LookedUp : List CuckooFilter → List CInt → Type 0
  LookedUp [] [] = Unit {0}
  LookedUp (cf ∷ cfs) (r ∷ rs) = (look cf ≡ some r) × LookedUp cfs rs
  LookedUp [] (r ∷ rs) = ⊥
  LookedUp (cf ∷ cfs) [] = ⊥

abbrev pub some_truthy : List CInt → Bool
some_truthy [] = false
some_truthy (r ∷ rs) = truthy r || some_truthy rs

module _ {A : Type 0} where
  get_elem?-middle :
      (pre : List A) (x : A) (post : List A) → get_elem? (pre ++ x ∷ post) (length pre) ≡ some x
  get_elem?-middle [] x post = refl
  get_elem?-middle (y ∷ pre) x post = get_elem?-middle pre x post

  set-middle :
      (pre : List A) (x : A) (post : List A)
      → set (pre ++ x ∷ post) (length pre) x ≡ pre ++ x ∷ post
  set-middle [] x post = refl
  set-middle (y ∷ pre) x post = ap (λ l. y ∷ l) (set-middle pre x post)

  append-snoc : (pre : List A) (x : A) (post : List A) → (pre ++ x ∷ []) ++ post ≡ pre ++ x ∷ post
  append-snoc [] x post = refl
  append-snoc (y ∷ pre) x post = ap (λ l. y ∷ l) (append-snoc pre x post)

  length-snoc : (pre : List A) (x : A) → length (pre ++ x ∷ []) ≡ length pre + 1
  length-snoc [] x = refl
  length-snoc (y ∷ pre) x = omega (arith, length-snoc pre x)

module _ (look : CuckooFilter → Option CInt) where
  abbrev asking : CuckooFilter → Option (CInt × CuckooFilter)
  asking cf = do r ← look cf; some (r, cf)

  each_filter_lem :
      (cfs : List CuckooFilter) (rs : List CInt) (pre : List (Option CuckooFilter))
      → LookedUp look cfs rs
      → each_filter asking truthy plus_one (length cfs) (length pre) (pre ++ present cfs)
        ≡ some ((if some_truthy rs then plus_one else naught), pre ++ present cfs)
  unfolding each_filter or_null
  each_filter_lem [] [] pre h = refl
  each_filter_lem [] (r ∷ rs) pre h = absurd h
  each_filter_lem (cf ∷ cfs) [] pre h = absurd h
  each_filter_lem (cf ∷ cfs) (r ∷ rs) pre (h, hs) =
      let next =
        rw (append-snoc pre (some cf) (present cfs), length-snoc pre (some cf)) at
          (each_filter_lem cfs rs (pre ++ some cf ∷ []) hs) in
      elim (Bool-cases (truthy r)) [
        | inl e ↦
            rw
              (
                get_elem?-middle pre (some cf) (present cfs),
                h,
                ◌>>=◌,
                e,
                set-middle pre (some cf) (present cfs),
              )
              refl
        | inr e ↦
            rw
              (
                get_elem?-middle pre (some cf) (present cfs),
                h,
                ◌>>=◌,
                e,
                set-middle pre (some cf) (present cfs),
              )
              next
      ]

-- Every filter has its block, and at most 2 ^ 30 buckets.
abbrev pub AllReady : List CuckooFilter → Type 0
AllReady [] = Unit {0}
AllReady (cf ∷ cfs) = ((mem : List ℕ) × HasBlock cf mem × (cf.bucket_power ≤ 30)) × AllReady cfs

module _ (t : Tables) (u : Undefined) (plain : Bool) (key : List ℕ) (len : ℕ) (ready : IsInit t)
    (os : AllOctets key) (fits : len ≤ length key) where
  lookups :
      (cfs : List CuckooFilter)
      → AllReady cfs
      → (rs : List CInt) × LookedUp (λ cf. cf_lookup t u plain cf key len) cfs rs
  lookups [] h = ([], tt)
  lookups (cf ∷ cfs) ((mem, v, small), hs) =
      let (at, is, r, ran, l) = cf_lookup_lem t u plain cf mem key len ready v small os fits in
      let (rs, all) = lookups cfs hs in (r ∷ rs, (ran, all))

  -- `scf_lookup` over filters that are there and have their blocks comes to an end. It returns 1 where
  -- `cf_lookup` returns no zero on one of them, and 0 where it returns 0 on all.
  pub scf_lookup_lem :
      {F : Type 0} (scf : ScalableCuckooFilter F) (cfs : List CuckooFilter)
      → AllReady cfs
      → (rs : List CInt) × LookedUp (λ cf. cf_lookup t u plain cf key len) cfs rs
        × (scf_lookup t u plain
              (some (record scf { filters = some (present cfs); filter_count = length cfs }))
              key
              len
            ≡ some (if some_truthy rs then plus_one else naught))
  unfolding scf_lookup over_filters
  scf_lookup_lem scf cfs h =
      let (rs, all) = lookups cfs h in
      (rs, all, rw (each_filter_lem (λ cf. cf_lookup t u plain cf key len) cfs rs [] all) refl)
