-- ===== src/Cache/Set.antt =====
-- src/cache/cache.c: what `cache_set` does to the hash map.
use pmem_rts_cache.Common.{
  ℕ, ◌≤◌, ◌≡◌, refl, sym, ◌∙◌, ap, subst, ◌⊎◌, inl, inr, true, false, Option, none, some, ◌==◌,
  Bool-cases, arith,
}
use pmem_rts_cache.Pmem.{PmemOid}
use pmem_rts_cache.Map.Table.{HashmapTx}
use pmem_rts_cache.Map.Update.{hm_tx_remove}
use pmem_rts_cache.Map.Read.{hm_tx_get, hm_tx_count}
use pmem_rts_cache.Map.Invariant.{IsValid, contents}
use pmem_rts_cache.Map.Remove.{hm_tx_remove_lem}
use pmem_rts_cache.Cache.Pool.{
  Cache, Pool, Tx, fault, aborted, done, Code, ◌>>◌, call, Allocator, on_map,
}
use pmem_rts_cache.Cache.Code.{
  CacheStatus, ok, failed, refuses, outcome, transaction, is_mapped, drop_mapped, evict,
  link_mapped, set_body, cache_set,
}
use pmem_rts_cache.Cache.Keeps.{
  Ends, Keeps, bind-Keeps, call-Keeps, cache_fields-Keeps, load-Keeps, store-Keeps, set_next-Keeps,
  tx_new-Keeps, if-Keeps, done-Keeps, cache_delete-Keeps, cache_add-Keeps, read_map-Keeps,
  on_map-Keeps,
}

-- `m` is a valid map with no key that `m0` does not have, and with the same values.
pub record Fewer (m0 m : HashmapTx) : Type 0 where
  pub valid : IsValid m
  pub count : m.count ≤ m0.count
  pub reads : (q : ℕ) → (contents m q ≡ contents m0 q) ⊎ (contents m q ≡ none)

-- The cache has such a map.
abbrev pub FewerIn : HashmapTx → Option HashmapTx → Type 0
FewerIn m0 none = ⊥
FewerIn m0 (some m) = Fewer m0 m

-- The map of a cache; `none` for a null cache too.
abbrev pub map_of : Option Cache → Option HashmapTx
map_of none = none
map_of (some c) = c.hashmap

abbrev pub HasFewer : HashmapTx → Option Cache → Type 0
HasFewer m0 o = FewerIn m0 (map_of o)

remove-Fewer :
    (m0 m : HashmapTx) (key : ℕ) (r : PmemOid × HashmapTx)
    → Fewer m0 m
    → hm_tx_remove true true m key ≡ some r
    → Fewer m0 r.1
remove-Fewer m0 m key r f ran =
    let (r', ran', rem) = hm_tx_remove_lem true true m key f.valid in
    let same : r' ≡ r = cc (sym ran' ∙ ran) in
    subst (λ t. Fewer m0 t.1) same
      (record {
        valid = rem.valid;
        count = omega (arith, f.count, rem.count);
        reads = λ q. elim (Bool-cases (key == q)) [
          | inl e ↦ inr (rem.reads q ∙ rw e refl)
          | inr e ↦ rw (rem.reads q, e) (f.reads q)
        ];
      })

module _ (m0 : HashmapTx) where
  remove-Keeps : (key : ℕ) → Keeps (HasFewer m0) (on_map (λ m. hm_tx_remove true true m key))
  remove-Keeps key =
      on_map-Keeps (HasFewer m0) (λ m. hm_tx_remove true true m key)
        λ c m r p h ran. remove-Fewer m0 m key r (subst (FewerIn m0) h p) ran

  drop_mapped-Keeps : (key : ℕ) (mapped : PmemOid) → Keeps (HasFewer m0) (drop_mapped key mapped)
  unfolding drop_mapped
  drop_mapped-Keeps key mapped =
      if-Keeps (HasFewer m0) (λ w. is_mapped w mapped)
        (bind-Keeps (HasFewer m0) (remove-Keeps key) λ _. cache_delete-Keeps (HasFewer m0) mapped)
        (done-Keeps (HasFewer m0) tt)

  evict-Keeps : Keeps (HasFewer m0) evict
  unfolding evict
  evict-Keeps = bind-Keeps (HasFewer m0) (cache_fields-Keeps (HasFewer m0)) λ c.
      bind-Keeps (HasFewer m0) (read_map-Keeps (HasFewer m0) (λ m. some (hm_tx_count m))) λ count.
        if-Keeps (HasFewer m0) (λ w. count == c.capacity)
          (bind-Keeps (HasFewer m0) (load-Keeps (HasFewer m0) c.tail) λ tail.
            bind-Keeps (HasFewer m0) (load-Keeps (HasFewer m0) tail.prev) λ last.
              bind-Keeps (HasFewer m0) (remove-Keeps last.key) λ _.
                bind-Keeps (HasFewer m0) (load-Keeps (HasFewer m0) c.tail)
                  λ tail_now. cache_delete-Keeps (HasFewer m0) tail_now.prev)
          (done-Keeps (HasFewer m0) tt)

  link_mapped-Keeps : (mapped : PmemOid) → Keeps (HasFewer m0) (link_mapped mapped)
  unfolding link_mapped
  link_mapped-Keeps mapped =
      if-Keeps (HasFewer m0) (λ w. is_mapped w mapped)
        (bind-Keeps (HasFewer m0) (cache_fields-Keeps (HasFewer m0)) λ c.
          bind-Keeps (HasFewer m0) (load-Keeps (HasFewer m0) c.head)
            λ head. set_next-Keeps (HasFewer m0) mapped head.next)
        (done-Keeps (HasFewer m0) tt)

  set_body-Keeps : (a : Allocator) (key value : ℕ) → Keeps (HasFewer m0) (set_body a key value)
  unfolding set_body
  set_body-Keeps a key value = bind-Keeps (HasFewer m0) (call-Keeps (HasFewer m0)) λ _.
      bind-Keeps (HasFewer m0) (call-Keeps (HasFewer m0)) λ _.
        bind-Keeps (HasFewer m0) (read_map-Keeps (HasFewer m0) (λ m. hm_tx_get m key)) λ mapped.
          bind-Keeps (HasFewer m0) (drop_mapped-Keeps key mapped) λ _.
            bind-Keeps (HasFewer m0) evict-Keeps λ _.
              bind-Keeps (HasFewer m0) (tx_new-Keeps (HasFewer m0) a) λ new_entry.
                bind-Keeps (HasFewer m0) (load-Keeps (HasFewer m0) new_entry) λ e.
                  bind-Keeps (HasFewer m0)
                    (store-Keeps (HasFewer m0) new_entry (record e { key = key; value = value }))
                    λ _. bind-Keeps (HasFewer m0) (cache_add-Keeps (HasFewer m0) a new_entry) λ _.
                      bind-Keeps (HasFewer m0) (read_map-Keeps (HasFewer m0) (λ m. hm_tx_get m key))
                        λ mapped'. link_mapped-Keeps mapped'

-- What a transaction leaves: the fields as they were where it failed, and with the property of its
-- code where it did not.
abbrev pub Leaves : (Option Cache → Type 0) → Pool → CacheStatus × Pool → Type 0
Leaves P old (failed, w) = w.cache ≡ old.cache
Leaves P old (ok, w) = P w.cache

pub some-inj {ℓ} : {A : Type ℓ} {x y : A} → some x ≡ some y → x ≡ y
some-inj e = cc

pub none_absurd {ℓ κ} : {A : Type ℓ} {B : Type κ} {y : A} → ◌≡◌ {A = Option A} none (some y) → B
none_absurd {A} {y} e = absurd (none≢some e)
  where
    none≢some : ◌≡◌ {A = Option A} none (some y) → ⊥
    none≢some e = cc

transaction-Leaves :
    (P : Option Cache → Type 0) (luck : ℕ) (body : Code (Unit {0})) (old : Pool)
    (r : CacheStatus × Pool)
    → Keeps P body
    → P old.cache
    → transaction luck body old ≡ some r
    → Leaves P old r
unfolding transaction
transaction-Leaves P luck body old r keep p ran =
    on_end ((call >> body) (record old { luck = luck }))
      ((bind-Keeps P (call-Keeps P) λ _. keep).at (record old { luck = luck }) p) ran
  where
    on_end : (t : Tx (Unit {0})) → Ends P t → outcome old t ≡ some r → Leaves P old r
    on_end fault e q = none_absurd q
    on_end (aborted w) e q = subst (Leaves P old) (some-inj q) refl
    on_end (done u w) e q = subst (Leaves P old) (some-inj q) e

pub accepts : (w : Pool) (m : HashmapTx) → map_of w.cache ≡ some m → refuses w ≡ false
accepts w m has = on_cache w.cache has
  where
    on_map_field :
        (h : Option HashmapTx) → h ≡ some m → (elim h [ none ↦ true | some m ↦ false ]) ≡ false
    on_map_field none e = none_absurd e
    on_map_field (some _) e = refl

    on_cache :
        (o : Option Cache)
        → map_of o ≡ some m
        → (elim o [ none ↦ true | some c ↦ elim c.hashmap [ none ↦ true | some m ↦ false ] ])
          ≡ false
    on_cache none e = none_absurd e
    on_cache (some c) e = on_map_field c.hashmap e

Fewer-map :
    (m : HashmapTx) (o : Option HashmapTx)
    → FewerIn m o
    → (m' : HashmapTx) × (o ≡ some m') × Fewer m m'
Fewer-map m none f = absurd f
Fewer-map m (some m') f = (m', refl, f)

set-Leaves :
    (m : HashmapTx) (w : Pool) (r : CacheStatus × Pool)
    → map_of w.cache ≡ some m
    → IsValid m
    → Leaves (HasFewer m) w r
    → (m' : HashmapTx) × (map_of r.1.cache ≡ some m')
      × Fewer m m'
      × ((r.0 ≡ ok) ⊎ (r.1.cache ≡ w.cache))
set-Leaves m w (failed, w') has v left = (
  m,
  ap map_of left ∙ has,
  record { valid = v; count = omega arith; reads = λ q. inl refl },
  inr left,
)
set-Leaves m w (ok, w') has v left =
    let (m', same, f) = Fewer-map m (map_of w'.cache) left in (m', same, f, inl refl)

-- Where `cache_set` returns, on a cache with a valid map, the map is still valid, and every key either
-- reads as before or is gone: also the key that was set is not there unless it was there before, with
-- the value that it had. A call that fails leaves the fields of the cache as they were. This holds
-- wherever libpmemobj fails.
pub cache_set_lem :
    (a : Allocator) (luck : ℕ) (w : Pool) (key value : ℕ) (m : HashmapTx) (r : CacheStatus × Pool)
    → map_of w.cache ≡ some m
    → IsValid m
    → cache_set a luck w key value ≡ some r
    → (m' : HashmapTx) × (map_of r.1.cache ≡ some m')
      × Fewer m m'
      × ((r.0 ≡ ok) ⊎ (r.1.cache ≡ w.cache))
unfolding cache_set
cache_set_lem a luck w key value m r has v ran =
    let self : Fewer m m = record { valid = v; count = omega arith; reads = λ q. inl refl } in
    set-Leaves m w r has v (
      transaction-Leaves (HasFewer m) luck (set_body a key value) w r (set_body-Keeps m a key value)
        (subst (FewerIn m) (sym has) self) (rw (accepts w m has) at ran))
