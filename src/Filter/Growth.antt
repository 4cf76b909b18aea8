-- ===== src/Filter/Growth.antt =====
-- src/dual_domain/filter/scalable_cuckoo_filter.c: insertion, which is meant to add a filter when the last
-- one is full, and what becomes of a filter that scf_configure has set up.
use pmem_rts_cache.Common.{
  ℕ, ◌+◌, ◌-◌, ◌%◌, ◌≡◌, refl, sym, ◌∙◌, ap, subst, ◌⊎◌, inl, inr, Bool, true, false, Option, none,
  some, List, if◌then◌else◌, ◌>>=◌, get_elem?, set, length, length-set,
}
use pmem_rts_cache.Pmem.{u32_mod, u64_mod}
use pmem_rts_cache.Filter.Bucket.{CInt, minus_one, naught, plus_one, truthy}
use pmem_rts_cache.Filter.Util.{Undefined, Tables}
use pmem_rts_cache.Filter.Cuckoo.{CuckooFilter, cf_new, cf_insert}
use pmem_rts_cache.Filter.Scalable.{
  LoadFactors, ScalableCuckooFilter, Allocations, scf_configure, scf_lookup, over_filters,
  each_filter, or_null,
}

module _ (f : LoadFactors) (t : Tables) (u : Undefined) (plain : Bool) where
  -- The end of `scf_insert`, after `needScale` is set. `cf_new` leaves the local pointer `newFilter`
  -- without a value, and what would read it is undefined behaviour.
  unfoldable pub add_filter :
      Allocations
      → CuckooFilter
      → ScalableCuckooFilter f.Factor
      → Option (CInt × ScalableCuckooFilter f.Factor)
  add_filter m last scf = do
    scale ← scf.scale_factor
    (r, made) ← cf_new m.filter m.block (scale (last.bucket_power % u32_mod))
    if truthy r then none else some (minus_one, scf)

  -- What follows `if (!needScale)`.
  unfoldable pub finish_insert :
      Allocations
      → Bool
      → CuckooFilter
      → ScalableCuckooFilter f.Factor
      → Option (CInt × Option (ScalableCuckooFilter f.Factor))
  finish_insert m false last scf = some (plus_one, some scf)
  finish_insert m true last scf = do (r, grown) ← add_filter m last scf; some (r, some grown)

  -- The test of the load of the last filter and, where it is not exceeded, the insertion:
  -- `needScale`, and the filter.
  unfoldable pub try_last :
      Bool → List ℕ → f.Factor → CuckooFilter → List ℕ → ℕ → Option (Bool × CuckooFilter)
  try_last heads rands load_factor last key len =
      if f.exceeded last.count last.bucket_power load_factor then some (true, last) else (do
        (r, last') ← cf_insert t u plain heads rands last key len
        some ((if truthy r then false else true), last'))

  unfoldable pub scf_insert :
      Allocations
      → Bool
      → List ℕ
      → Option (ScalableCuckooFilter f.Factor)
      → List ℕ
      → ℕ
      → Option (CInt × Option (ScalableCuckooFilter f.Factor))
  unfolding try_last finish_insert
  scf_insert m heads rands none key len = none
  scf_insert m heads rands (some scf) key len = do
    filters ← scf.filters
    let at_last = (scf.filter_count + u64_mod - 1) % u64_mod
    slot ← get_elem? filters at_last
    last ← slot
    (need_scale, last') ← try_last heads rands scf.load_factor last key len
    let scf' = record scf { filters = some (set filters at_last (some last')) }
    finish_insert m need_scale last' scf'

  unfoldable pub scf_insert_unique :
      Allocations
      → Bool
      → List ℕ
      → Option (ScalableCuckooFilter f.Factor)
      → List ℕ
      → ℕ
      → Option (CInt × Option (ScalableCuckooFilter f.Factor))
  unfolding scf_insert
  scf_insert_unique m heads rands scf key len = do
    found ← scf_lookup t u plain scf key len
    elim (truthy found) [ true ↦ some (naught, scf) | false ↦ scf_insert m heads rands scf key len ]

-- A property of what is returned, if anything is.
abbrev pub Holds : {A : Type 0} → (A → Type 0) → Option A → Type 0
Holds P none = Unit {0}
Holds P (some x) = P x

pub record Returned {A : Type 0} (P : A → Type 0) (o : Option A) : Type 0 where
  pub holds : Holds P o

Holds-bind :
    {A B : Type 0} (P : B → Type 0) (o : Option A) (k : A → Option B)
    → ((x : A) → o ≡ some x → Returned P (k x))
    → Holds P (o >>= k)
Holds-bind P none k h = tt
Holds-bind P (some x) k h = (h x refl).holds

Returned-bind :
    {A B : Type 0} {P : B → Type 0} {o : Option A} {k : A → Option B}
    → ((x : A) → o ≡ some x → Returned P (k x))
    → Returned P (o >>= k)
Returned-bind {P} {o} {k} h = record { holds = Holds-bind P o k h }

Returned-at : {A : Type 0} {P : A → Type 0} {o : Option A} {x : A} → Returned P o → o ≡ some x → P x
Returned-at {P} r q = subst (Holds P) q r.holds

abbrev pub slots : Option (List (Option CuckooFilter)) → ℕ
slots none = 0
slots (some filters) = length filters

module _ (f : LoadFactors) where
  -- What an insertion may do: 1, or -1 for an attempt to grow, on as many filters as before.
  pub record SameSize (scf : ScalableCuckooFilter f.Factor)
      (result : CInt × Option (ScalableCuckooFilter f.Factor)) : Type 0 where
    pub after : ScalableCuckooFilter f.Factor
    pub is_after : result.1 ≡ some after
    pub answer : (result.0 ≡ plus_one) ⊎ (result.0 ≡ minus_one)
    pub same_count : after.filter_count ≡ scf.filter_count
    pub same_capacity : after.capacity ≡ scf.capacity
    pub same_slots : slots after.filters ≡ slots scf.filters

  module _ (scf : ScalableCuckooFilter f.Factor) (filters : List (Option CuckooFilter)) where
    stored-SameSize :
        (r : CInt)
        → (r ≡ plus_one) ⊎ (r ≡ minus_one)
        → (i : ℕ) (filter : Option CuckooFilter) → scf.filters ≡ some filters
        → SameSize scf (r, some (record scf { filters = some (set filters i filter) }))
    stored-SameSize r answers i filter e = record {
      after = record scf { filters = some (set filters i filter) };
      is_after = refl;
      answer = answers;
      same_count = refl;
      same_capacity = refl;
      same_slots = length-set filters i filter ∙ sym (ap slots e);
    }

module _ (f : LoadFactors) (t : Tables) (u : Undefined) (plain : Bool) where
  -- An attempt to grow returns -1, where it returns.
  grown :
      (m : Allocations) (last : CuckooFilter) (scf : ScalableCuckooFilter f.Factor)
      → Returned {A = CInt × ScalableCuckooFilter f.Factor}
          (λ result. result ≡ (minus_one, scf))
          (add_filter f t u plain m last scf)
  unfolding add_filter
  grown m last scf = Returned-bind {o = scf.scale_factor} (λ scale _.
      Returned-bind {o = cf_new m.filter m.block (scale (last.bucket_power % u32_mod))}
        (λ made _. no_value (truthy made.0)))
    where
      no_value :
          (b : Bool)
          → Returned {A = CInt × ScalableCuckooFilter f.Factor}
              (λ result. result ≡ (minus_one, scf))
              (if b then none else some (minus_one, scf))
      no_value true = record { holds = tt }
      no_value false = record { holds = refl }

  module _ (m : Allocations) (scf : ScalableCuckooFilter f.Factor)
      (filters : List (Option CuckooFilter)) where
    finish_insert-SameSize :
        (need_scale : Bool) (last : CuckooFilter) (i : ℕ) (e : scf.filters ≡ some filters)
        → Returned (SameSize f scf) (
            finish_insert f t u plain m need_scale last
              (record scf { filters = some (set filters i (some last)) }))
    unfolding finish_insert
    finish_insert-SameSize false last i e = record {
      holds = stored-SameSize f scf filters plus_one (inl refl) i (some last) e;
    }
    finish_insert-SameSize true last i e =
        let stored = record scf { filters = some (set filters i (some last)) } in
        Returned-bind {o = add_filter f t u plain m last stored} (λ result q. record {
          holds =
              subst (λ r. SameSize f scf (r.0, some r.1))
                (sym (Returned-at (grown m last stored) q))
                (stored-SameSize f scf filters minus_one (inr refl) i (some last) e);
        })

  -- An insertion never adds a filter: whatever it returns, it returns 1 or -1, and the filters are as
  -- many as before, with the same capacity.
  pub scf_insert-SameSize :
      (m : Allocations) (heads : Bool) (rands : List ℕ) (scf : ScalableCuckooFilter f.Factor)
      (key : List ℕ) (len : ℕ)
      → Returned (SameSize f scf) (scf_insert f t u plain m heads rands (some scf) key len)
  unfolding scf_insert try_last finish_insert
  scf_insert-SameSize m heads rands scf key len =
      let at_last = (scf.filter_count + u64_mod - 1) % u64_mod in
      Returned-bind {o = scf.filters} (λ filters e.
        Returned-bind {o = get_elem? filters at_last} (λ slot _. Returned-bind {o = slot} (λ last _.
          Returned-bind {o = try_last f t u plain heads rands scf.load_factor last key len}
            (λ tried _. finish_insert-SameSize m scf filters tried.0 tried.1 at_last e))))

  -- What `scf_configure` makes, where `filters` was null and every allocation succeeds: one slot, still
  -- null.
  pub record AnswersAlways (scf : ScalableCuckooFilter f.Factor) : Type 0 where
    pub lookup : (key : List ℕ) (len : ℕ) → scf_lookup t u plain (some scf) key len ≡ some plus_one
    pub insert_unique :
        (m : Allocations) (heads : Bool) (rands key : List ℕ) (len : ℕ)
        → scf_insert_unique f t u plain m heads rands (some scf) key len ≡ some (naught, some scf)
    pub insert :
        (m : Allocations) (heads : Bool) (rands key : List ℕ) (len : ℕ)
        → scf_insert f t u plain m heads rands (some scf) key len ≡ none

  -- A filter set up by `scf_configure` with every allocation successful takes every key for present,
  -- `scf_insert_unique` returns 0 on it and changes nothing, and `scf_insert` is undefined behaviour.
  pub scf_configure-AnswersAlways :
      (scf : ScalableCuckooFilter f.Factor)
      → (made : ScalableCuckooFilter f.Factor) × (scf_configure f
            (record { array = true; filter = true; block = true })
            (record scf { filters = none })
          ≡ some (naught, made))
        × AnswersAlways made
  unfolding scf_configure cf_new scf_lookup over_filters each_filter or_null scf_insert_unique
      scf_insert
  scf_configure-AnswersAlways scf = (
    _,
    refl,
    record {
      lookup = λ key len. refl;
      insert_unique = λ m heads rands key len. refl;
      insert = λ m heads rands key len. refl;
    },
  )
