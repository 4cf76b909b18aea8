-- ===== src/Cache/Keeps.antt =====
-- src/cache/cache.c: what code within a transaction keeps true of the fields of the cache.
use pmem_rts_cache.Common.{
  zero, suc, ◌≡◌, refl, Bool, true, false, Option, none, some, if◌then◌else◌,
}
use pmem_rts_cache.Pmem.{PmemOid}
use pmem_rts_cache.Map.Table.{HashmapTx}
use pmem_rts_cache.Cache.Pool.{
  CacheEntry, Cache, Pool, Tx, fault, aborted, done, Code, and_then, ◌>>=◌, call, cache_fields,
  entry_at, freed, load, store, set_next, set_prev, tx_free, Allocator, tx_new, update, refilled,
  map_replied, map_called, on_map, read_map,
}
use pmem_rts_cache.Cache.Code.{refuses, nested, add_fields, cache_delete, cache_add}

module _ (P : Option Cache → Type 0) where
  -- The fields have the property where the code comes to its end.
  abbrev pub Ends : {A : Type 0} → Tx A → Type 0
  Ends fault = Unit {0}
  Ends (aborted w) = Unit {0}
  Ends (done a w) = P w.cache

  pub record Keeps {A : Type 0} (m : Code A) : Type 0 where
    pub at : (w : Pool) → P w.cache → Ends (m w)

  Ends-and_then :
      {A B : Type 0} (r : Tx A) (k : A → Code B)
      → Ends r
      → ((a : A) → Keeps (k a))
      → Ends (and_then r k)
  Ends-and_then fault k e h = tt
  Ends-and_then (aborted w) k e h = tt
  Ends-and_then (done a w) k e h = (h a).at w e

  pub bind-Keeps :
      {A B : Type 0} {m : Code A} {k : A → Code B}
      → Keeps m
      → ((a : A) → Keeps (k a))
      → Keeps (m >>= k)
  bind-Keeps {m} {k} h g = record { at = λ w p. Ends-and_then (m w) k (h.at w p) g }

  pub call-Keeps : Keeps call
  unfolding call
  call-Keeps = record {
    at = λ w p.
        elim w.luck
          as (λ n. Ends (elim n [ zero ↦ aborted w | suc k ↦ done tt (record w { luck = k }) ])) [
            | zero ↦ tt
            | suc n ↦ p
          ];
  }

  pub cache_fields-Keeps : Keeps cache_fields
  unfolding cache_fields
  cache_fields-Keeps = record {
    at = λ w p. elim w.cache as (λ o. Ends (elim o [ none ↦ fault | some c ↦ done c w ])) [
      | none ↦ tt
      | some c ↦ p
    ];
  }

  pub load-Keeps : (o : PmemOid) → Keeps (load o)
  unfolding load
  load-Keeps o = record {
    at = λ w p. elim (entry_at w o) as (λ x. Ends (elim x [ none ↦ fault | some e ↦ done e w ])) [
      | none ↦ tt
      | some e ↦ p
    ];
  }

  pub store-Keeps : (o : PmemOid) (e : CacheEntry) → Keeps (store o e)
  unfolding store
  store-Keeps o e = record {
    at = λ w p.
        elim (entry_at w o)
          as (λ x. Ends (elim x [
            | none ↦ fault
            | some _ ↦ done tt (record w { cell = update w.cell o.off (refilled (w.cell o.off) e) })
          ])) [ none ↦ tt | some _ ↦ p ];
  }

  pub set_next-Keeps : (o next : PmemOid) → Keeps (set_next o next)
  unfolding set_next
  set_next-Keeps o next = bind-Keeps (load-Keeps o) (λ e. store-Keeps o (record e { next = next }))

  pub set_prev-Keeps : (o prev : PmemOid) → Keeps (set_prev o prev)
  unfolding set_prev
  set_prev-Keeps o prev = bind-Keeps (load-Keeps o) (λ e. store-Keeps o (record e { prev = prev }))

  pub tx_free-Keeps : (o : PmemOid) → Keeps (tx_free o)
  unfolding tx_free
  tx_free-Keeps o = bind-Keeps call-Keeps (λ _. record {
    at = λ w p.
        elim (freed (w.cell o.off))
          as (λ x. Ends (elim x [
            | none ↦ fault
            | some c ↦ done tt (record w { cell = update w.cell o.off c })
          ])) [ none ↦ tt | some c ↦ p ];
  })

  pub tx_new-Keeps : (a : Allocator) → Keeps (tx_new a)
  unfolding tx_new
  tx_new-Keeps a = bind-Keeps call-Keeps (λ _. record { at = λ w p. p })

  pub add_fields-Keeps : Keeps add_fields
  add_fields-Keeps = bind-Keeps call-Keeps (λ _. bind-Keeps call-Keeps (λ _. call-Keeps))

  pub if-Keeps :
      {A : Type 0} (test : Pool → Bool) {m n : Code A}
      → Keeps m
      → Keeps n
      → Keeps (λ w. if test w then m w else n w)
  if-Keeps test {m} {n} h k = record {
    at = λ w p. elim (test w) as (λ b. Ends (if b then m w else n w)) [
      | true ↦ h.at w p
      | false ↦ k.at w p
    ];
  }

  pub done-Keeps : {A : Type 0} (a : A) → Keeps (λ w. done a w)
  done-Keeps a = record { at = λ w p. p }

  nested-Keeps : {body : Code (Unit {0})} → Keeps body → Keeps (nested body)
  nested-Keeps h = if-Keeps refuses (done-Keeps tt) (bind-Keeps call-Keeps (λ _. h))

  pub cache_delete-Keeps : (entry : PmemOid) → Keeps (cache_delete entry)
  unfolding cache_delete
  cache_delete-Keeps entry = nested-Keeps (
      bind-Keeps add_fields-Keeps λ _. bind-Keeps (load-Keeps entry) λ e.
        bind-Keeps (set_prev-Keeps e.next e.prev)
          λ _. bind-Keeps (set_next-Keeps e.prev e.next) λ _. tx_free-Keeps entry)

  pub cache_add-Keeps : (a : Allocator) (entry : PmemOid) → Keeps (cache_add a entry)
  unfolding cache_add
  cache_add-Keeps a entry = nested-Keeps (
      bind-Keeps add_fields-Keeps λ _. bind-Keeps (tx_new-Keeps a) λ dummy.
        bind-Keeps cache_fields-Keeps λ c. bind-Keeps (load-Keeps c.head) λ head.
          bind-Keeps (load-Keeps head.next) λ first.
            bind-Keeps (bind-Keeps call-Keeps λ _. store-Keeps dummy first) λ _.
              bind-Keeps (set_next-Keeps c.head entry) λ _.
                bind-Keeps (set_prev-Keeps entry c.head)
                  λ _. bind-Keeps (set_next-Keeps entry dummy) λ _. set_prev-Keeps dummy entry)

  pub read_map-Keeps : {A : Type 0} (f : HashmapTx → Option A) → Keeps (read_map f)
  unfolding read_map
  read_map-Keeps f = bind-Keeps cache_fields-Keeps λ c. record {
    at = λ w p.
        elim c.hashmap
          as (λ h.
            Ends (elim h [
              | none ↦ fault
              | some m ↦ elim (f m) [ none ↦ fault | some a ↦ done a w ]
            ])) [
              | none ↦ tt
              | some m ↦ elim (f m) as (λ x. Ends (elim x [ none ↦ fault | some a ↦ done a w ])) [
                | none ↦ tt
                | some a ↦ p
              ]
            ];
  }

  -- A call of the hash map keeps the property if it does so for every map that the cache can have.
  pub on_map-Keeps :
      {A : Type 0} (f : HashmapTx → Option (A × HashmapTx))
      → ((c : Cache) (m : HashmapTx) (r : A × HashmapTx)
          → P (some c)
          → c.hashmap ≡ some m
          → f m ≡ some r
          → P (some (record c { hashmap = some r.1 })))
      → Keeps (on_map f)
  unfolding on_map cache_fields
  on_map-Keeps {A} f keep = bind-Keeps call-Keeps λ _. record { at = λ w p. on_cache w w.cache p }
    where
      replied :
          (w : Pool) (c : Cache) (m : HashmapTx) (x : Option (A × HashmapTx))
          → f m ≡ x
          → P (some c)
          → c.hashmap ≡ some m
          → Ends (map_replied f w c x)
      replied w c m none e p h = tt
      replied w c m (some r) e p h = keep c m r p h e

      called :
          (w : Pool) (c : Cache) (x : Option HashmapTx)
          → c.hashmap ≡ x
          → P (some c)
          → Ends (map_called f w c x)
      called w c none e p = tt
      called w c (some m) e p = replied w c m (f m) refl p e

      on_cache :
          (w : Pool) (x : Option Cache)
          → P x
          → Ends (
              and_then
                (elim x [ none ↦ fault | some c ↦ done c w ])
                λ c w'. map_called f w' c c.hashmap)
      on_cache w none p = tt
      on_cache w (some c) p = called w c c.hashmap refl p
