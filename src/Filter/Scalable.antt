-- ===== src/Filter/Scalable.antt =====
-- src/dual_domain/filter/scalable_cuckoo_filter.c: a list of filters. And cf_free and the operations on
-- a NULL filter of src/dual_domain/filter/cuckoo_filter.c, which it relies on.
-- `none` is undefined behaviour.
use pmem_rts_cache.Common.{
  ℕ, zero, suc, ◌+◌, ◌*◌, ◌%◌, Bool, true, false, Option, none, some, List, [], ◌∷◌, ◌==◌,
  if◌then◌else◌, ◌>>=◌, get_elem?, set,
}
use pmem_rts_cache.Pmem.{u32_mod}
use pmem_rts_cache.Filter.Bucket.{
  CInt, minus_one, naught, plus_one, truthy, bucket_size, bucket_free,
}
use pmem_rts_cache.Filter.Util.{Undefined, Tables}
use pmem_rts_cache.Filter.Cuckoo.{CuckooFilter, cf_new, cf_lookup, cf_delete, cf_reset, pointer_set}

-- `cf_is_init`
abbrev pub cf_is_init : Option CuckooFilter → Bool
cf_is_init none = false
cf_is_init (some cf) = elim cf.buckets [ none ↦ false | some mem ↦ true ]

-- An operation on a filter that may be NULL: it returns -1 on NULL.
unfoldable pub or_null :
    (CuckooFilter → Option (CInt × CuckooFilter))
    → Option CuckooFilter
    → Option (CInt × Option CuckooFilter)
or_null op none = some (minus_one, none)
or_null op (some cf) = do (r, cf') ← op cf; some (r, some cf')

-- The loop of `cf_free` at `i`, with `left` rounds to go; `alive` is whether the block has not been
-- freed. The first bucket stands at the start of the block.
unfoldable pub free_buckets : ℕ → ℕ → Bool → List ℕ → Option CInt
free_buckets left i false mem = none
free_buckets zero i true mem = some naught
free_buckets (suc left) i true mem = do
  present ← pointer_set mem i
  elim present [
    | false ↦ free_buckets left (i + 1) true mem
    | true ↦ do r ← bucket_free (some (i == 0)); free_buckets left (i + 1) false mem
  ]

unfoldable pub cf_free : Option CuckooFilter → Option CInt
unfolding free_buckets
cf_free none = some naught
cf_free (some cf) = elim cf.buckets [ none ↦ none | some mem ↦ free_buckets bucket_size 0 true mem ]

-- What the filter does with `float`.
pub record LoadFactors : Type 1 where
  pub Factor : Type 0
  pub is_zero : Factor → Bool
  pub default : Factor
  pub exceeded : ℕ → ℕ → Factor → Bool

-- `CF_S_DEFAULT_CAPACITY`
abbrev pub cf_s_default_capacity : ℕ
cf_s_default_capacity = 10000

-- `scf_default_scale_factor_func`
abbrev pub scf_default_scale_factor_func : ℕ → ℕ
scf_default_scale_factor_func current_size = current_size * bucket_size * 2 % u32_mod

-- `ScaleFactor`
abbrev pub ScaleFactor : Type 0
ScaleFactor = ℕ → ℕ

-- `struct ScalableCuckooFilter`, over the type of `loadFactor`. A filter of the array may be NULL.
pub record ScalableCuckooFilter (F : Type 0) : Type 0 where
  pub load_factor : F
  pub scale_factor : Option ScaleFactor
  pub filter_count : ℕ
  pub capacity : ℕ
  pub filters : Option (List (Option CuckooFilter))

-- `r == -1`
abbrev pub is_minus_one : CInt → Bool
is_minus_one minus_one = true
is_minus_one naught = false
is_minus_one plus_one = false

-- Whether the allocations succeed: the array of filters, and those of `cf_new`.
pub record Allocations : Type 0 where
  pub array : Bool
  pub filter : Bool
  pub block : Bool

module _ (f : LoadFactors) where
  -- The first two tests of `scf_configure`.
  abbrev pub with_defaults : ScalableCuckooFilter f.Factor → ScalableCuckooFilter f.Factor
  with_defaults scf = record scf {
    load_factor = (if f.is_zero scf.load_factor then f.default else scf.load_factor);
    scale_factor = elim scf.scale_factor [
      | none ↦ some scf_default_scale_factor_func
      | some g ↦ some g
    ];
  }

  -- `scf_configure`. `cf_new` is given a copy of the null pointer in the array, so that stays null.
  unfoldable pub scf_configure :
      Allocations → ScalableCuckooFilter f.Factor → Option (CInt × ScalableCuckooFilter f.Factor)
  scf_configure m scf = elim scf.filters [
    | some _ ↦ some (naught, with_defaults scf)
    | none ↦
        if m.array
        then (do
          (r, made) ← cf_new m.filter m.block cf_s_default_capacity
          let one = record (with_defaults scf) { filters = some (none ∷ []) }
          some (
              if is_minus_one r
              then (minus_one, one)
              else (naught, record one { capacity = cf_s_default_capacity; filter_count = 1 })))
        else none
  ]

  -- `Option`, a function that changes the filter.
  abbrev pub FilterOption : Type 0
  FilterOption = ScalableCuckooFilter f.Factor → ScalableCuckooFilter f.Factor

  abbrev pub apply_options :
      List FilterOption → ScalableCuckooFilter f.Factor → ScalableCuckooFilter f.Factor
  apply_options [] scf = scf
  apply_options (option ∷ options) scf = apply_options options (option scf)

  -- `scf_new` on memory that holds `raw`: the result, and the filter that it builds. The caller's
  -- pointer is a parameter, which is overwritten.
  unfoldable pub scf_new :
      Bool
      → Allocations
      → ScalableCuckooFilter f.Factor
      → List FilterOption
      → Option (CInt × Option (ScalableCuckooFilter f.Factor))
  unfolding scf_configure
  scf_new mallocs m raw options =
      if mallocs
      then (do (r, scf) ← scf_configure m (apply_options options raw); some (r, some scf))
      else some (minus_one, none)

-- The loop of `scf_free` at `i`, with `left` rounds to go.
unfoldable pub free_filters : ℕ → ℕ → List (Option CuckooFilter) → Option CInt
unfolding cf_free
free_filters zero i filters = some naught
free_filters (suc left) i filters = do
  filter ← get_elem? filters i
  r ← cf_free filter
  elim (is_minus_one r) [ true ↦ some minus_one | false ↦ free_filters left (i + 1) filters ]

-- The loops of `scf_lookup` and `scf_delete`: the first filter on which `op` returns no zero ends them
-- with `hit`.
unfoldable pub each_filter :
    (CuckooFilter → Option (CInt × CuckooFilter))
    → (CInt → Bool)
    → CInt
    → ℕ
    → ℕ
    → List (Option CuckooFilter)
    → Option (CInt × List (Option CuckooFilter))
unfolding or_null
each_filter op stops hit zero i filters = some (naught, filters)
each_filter op stops hit (suc left) i filters = do
  filter ← get_elem? filters i
  (r, filter') ← or_null op filter
  elim (stops r) [
    | true ↦ some (hit, set filters i filter')
    | false ↦ each_filter op stops hit left (i + 1) (set filters i filter')
  ]

module _ {F : Type 0} where
  abbrev pub scf_is_init : Option (ScalableCuckooFilter F) → Bool
  scf_is_init none = false
  scf_is_init (some scf) = elim scf.filters [ none ↦ false | some _ ↦ true ]

  unfoldable pub scf_free : Option (ScalableCuckooFilter F) → Option CInt
  unfolding free_filters
  scf_free none = some naught
  scf_free (some scf) = elim scf.filters [
    | none ↦ some minus_one
    | some filters ↦ free_filters scf.filter_count 0 filters
  ]

  -- What a loop over the filters leaves. `none` for the array is a null pointer, which the loop reads
  -- if there is a round.
  unfoldable pub over_filters :
      (CuckooFilter → Option (CInt × CuckooFilter))
      → (CInt → Bool)
      → CInt
      → ScalableCuckooFilter F
      → Option (CInt × ScalableCuckooFilter F)
  unfolding each_filter
  over_filters op stops hit scf = elim scf.filters [
    | none ↦ if scf.filter_count == 0 then some (naught, scf) else none
    | some filters ↦ do
      (r, filters') ← each_filter op stops hit scf.filter_count 0 filters
      some (r, record scf { filters = some filters' })
  ]

  -- `scf_reset`, which does not test for NULL.
  unfoldable pub scf_reset :
      Option (ScalableCuckooFilter F) → Option (CInt × Option (ScalableCuckooFilter F))
  unfolding over_filters
  scf_reset none = none
  scf_reset (some scf) = do
    (r, scf') ← over_filters cf_reset is_minus_one minus_one scf
    some (r, some scf')

module _ (t : Tables) (u : Undefined) (plain : Bool) {F : Type 0} where
  -- `scf_lookup`: 1 at the first filter where `cf_lookup` returns no zero.
  unfoldable pub scf_lookup : Option (ScalableCuckooFilter F) → List ℕ → ℕ → Option CInt
  unfolding over_filters
  scf_lookup none key len = some minus_one
  scf_lookup (some scf) key len =
      if scf_is_init (some scf)
      then (do
        (r, scf') ←
            over_filters (λ cf. do r ← cf_lookup t u plain cf key len; some (r, cf)) truthy plus_one
              scf
        some r)
      else some minus_one

  -- `scf_delete`: -1 at the first filter where `cf_delete` returns no zero.
  unfoldable pub scf_delete :
      Option (ScalableCuckooFilter F) → List ℕ → ℕ → Option (CInt × Option (ScalableCuckooFilter F))
  unfolding over_filters
  scf_delete none key len = some (minus_one, none)
  scf_delete (some scf) key len =
      if scf_is_init (some scf)
      then (do
        (r, scf') ← over_filters (λ cf. cf_delete t u plain cf key len) truthy minus_one scf
        some (r, some scf'))
      else some (minus_one, some scf)
