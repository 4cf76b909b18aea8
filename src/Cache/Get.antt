-- ===== src/Cache/Get.antt =====
-- src/cache/cache.c: `cache_get` of a key that has no entry.
use mathlib.Core.Option
use pmem_rts_cache.Common.{
  ℕ, zero, suc, ◌≡◌, refl, ap, Bool, false, not, ◌||◌, Option, none, some, Bool-cases, inl, inr,
}
use pmem_rts_cache.Pmem.{oid_null}
use pmem_rts_cache.Map.Table.{HashmapTx}
use pmem_rts_cache.Map.Read.{hm_tx_get}
use pmem_rts_cache.Map.Invariant.{IsValid, contents}
use pmem_rts_cache.Map.Reading.{hm_tx_get_lem}
use pmem_rts_cache.Cache.Pool.{
  Cell, vacant, kept, fresh, doomed, Cache, Pool, Tx, fault, aborted, done, Code, and_then, ◌>>◌,
  call, read_map, rolled_back,
}
use pmem_rts_cache.Cache.Code.{
  failed, refuses, outcome, transaction, is_mapped, get_body, cache_get,
}
use pmem_rts_cache.Cache.Set.{map_of, none_absurd}

read_map_lem :
    {A : Type 0} (f : HashmapTx → Option A) (w : Pool) (m : HashmapTx) (a : A)
    → map_of w.cache ≡ some m
    → f m ≡ some a
    → read_map f w ≡ done a w
unfolding read_map
read_map_lem {A} f w m a has ran = on_cache w.cache has
  where
    on_cache :
        (o : Option Cache)
        → map_of o ≡ some m
        → and_then
            (elim o [ none ↦ fault | some c ↦ done c w ])
            (λ c w'. elim c.hashmap [
              | none ↦ fault
              | some m ↦ elim (f m) [ none ↦ fault | some a ↦ done a w' ]
            ])
          ≡ done a w
    on_cache none e = none_absurd e
    on_cache (some c) e = rw (e, ran) refl

-- The code aborts with nothing changed but the number of calls that may still succeed.
abbrev Stops : Pool → Tx (Unit {0}) → Type 0
Stops w t = (n : ℕ) × (t ≡ aborted (record w { luck = n }))

call-Stops :
    (w : Pool) (k : Code (Unit {0}))
    → ((n : ℕ) → Stops w (k (record w { luck = n })))
    → Stops w ((call >> k) w)
unfolding call
call-Stops w k h =
    elim w.luck
      as (λ l. Stops w (
        and_then (elim l [ zero ↦ aborted w | suc n ↦ done tt (record w { luck = n }) ])
          (λ _. k))) [ zero ↦ (w.luck, refl) | suc n ↦ h n ]

get_body-Stops :
    (w : Pool) (key : ℕ) (m : HashmapTx)
    → map_of w.cache ≡ some m
    → IsValid m
    → is_mapped w (Option.get_or (contents m key) oid_null) ≡ false
    → Stops w ((call >> get_body key) w)
unfolding get_body
get_body-Stops w key m has v missing = call-Stops w _ λ n.
    let (n2, e2) =
      call-Stops (record w { luck = n }) _
        λ n'.
          let (n3, e3) =
            call-Stops (record w { luck = n' }) _
              λ n''. (
                n'',
                rw
                    (
                      read_map_lem (λ m. hm_tx_get m key) (record w { luck = n'' }) m
                          (Option.get_or (contents m key) oid_null) has (hm_tx_get_lem m key v),
                      missing,
                    )
                    refl,
              ) in
          (n3, e3) in
    (n2, e2)

rolled_back_twice : (c : Cell) → rolled_back (rolled_back c) ≡ rolled_back c
rolled_back_twice vacant = refl
rolled_back_twice (kept e) = refl
rolled_back_twice (fresh e) = refl
rolled_back_twice (doomed e) = refl

-- `cache_get` of a key that the map does not have, or has with a value that points to no entry, fails
-- and leaves the fields of the cache as they were, and every entry that is not of an open transaction.
-- It does so wherever libpmemobj fails, also with no pointer for the value.
pub cache_get_lem :
    (luck : ℕ) (w : Pool) (key : ℕ) (out : Bool) (m : HashmapTx)
    → map_of w.cache ≡ some m
    → IsValid m
    → is_mapped w (Option.get_or (contents m key) oid_null) ≡ false
    → (w' : Pool) × (cache_get luck w key out ≡ some (failed, w'))
      × (w'.cache ≡ w.cache)
      × ((at : ℕ) → rolled_back (w'.cell at) ≡ rolled_back (w.cell at))
unfolding cache_get transaction
cache_get_lem luck w key out m has v missing = elim (Bool-cases (refuses w || not out)) [
  | inl e ↦ (w, rw e refl, refl, λ at. refl)
  | inr e ↦
      let (n, stops) = get_body-Stops (record w { luck = luck }) key m has v missing in
      (
        record w { luck = n; cell = λ at. rolled_back (w.cell at) },
        rw e (ap (outcome w) stops),
        refl,
        λ at. rolled_back_twice (w.cell at),
      )
]
