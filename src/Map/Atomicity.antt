-- ===== src/Map/Atomicity.antt =====
-- src/map/hashmap_tx.c: the transactions of `hm_tx_insert` and `hm_tx_remove` add every word that they change.
use pmem_rts_cache.Common.{ℕ, ◌+◌, ◌-◌, ◌%◌, Bool, true, false, ◌||◌, if◌then◌else◌, arith}
use pmem_rts_cache.Pmem.{PmemOid, oid_is_null, u64_mod}
use pmem_rts_cache.Pmem.Undo.{
  within, fault, done, and_then, Code, ◌>>=◌, ◌>>◌, word_at, deref, peek_oid, Heap,
}
use pmem_rts_cache.Pmem.Rollback.{
  EndsSafe, Undoes, bind-Undoes, last-Undoes, peek-Undoes, peek_oid-Undoes, deref-Undoes,
  poke-Undoes, poke_oid-Undoes, tx_alloc-Undoes, tx_free_object-Undoes,
}
use pmem_rts_cache.Pmem.Reading.{
  oid_in, Starts, start, read-Starts, call-Starts, deref-Starts, add-Starts,
}
use pmem_rts_cache.Map.Memory.{
  bucket_word, read_buckets, insert_writes, insert_tx, remove_entry, relink, remove_first,
  remove_later, remove_tx,
}

-- The words that `hm_tx_insert` and `hm_tx_remove` add: the count, and a link.
abbrev added : PmemOid → ℕ → ℕ → Bool
added hashmap link b = within 1 (word_at hashmap 3) b || (within 2 link b || false)

module _ (word : ℕ → ℕ) where
  insert_writes-Undoes :
      (heap : Heap) (hashmap buckets : PmemOid) (h key : ℕ) (value : PmemOid)
      → Undoes word
          (added hashmap (word_at buckets (bucket_word h)))
          (insert_writes heap hashmap buckets h key value)
          (λ _ _. false)
  unfolding insert_writes
  insert_writes-Undoes heap hashmap buckets h key value =
      bind-Undoes word (tx_alloc-Undoes word heap heap.unset 5) λ e.
        bind-Undoes word (deref-Undoes word e) λ _.
          bind-Undoes word (poke-Undoes word (word_at e 0) key (ground arith)) λ _.
            bind-Undoes word
              (poke_oid-Undoes word (word_at e 1) value (ground arith) (ground arith))
              λ _. bind-Undoes word (deref-Undoes word buckets) λ _.
                bind-Undoes word (peek_oid-Undoes word (word_at buckets (bucket_word h))) λ first.
                  bind-Undoes word
                    (poke_oid-Undoes word (word_at e 3) first (ground arith) (ground arith))
                    λ _.
                      bind-Undoes word
                        (poke_oid-Undoes word (word_at buckets (bucket_word h)) e (ground arith)
                          (ground arith))
                        λ _. bind-Undoes word (peek-Undoes word (word_at hashmap 3)) λ count.
                          last-Undoes word (
                            poke-Undoes word (word_at hashmap 3) ((count + 1) % u64_mod)
                              (ground arith))

  read_buckets-Starts :
      {C : ℕ → Bool} (hashmap : PmemOid) (k : PmemOid → Code (Unit {0}))
      → Starts word C (k (oid_in word (word_at hashmap 4)))
      → Starts word C (read_buckets hashmap >>= k)
  unfolding read_buckets deref
  read_buckets-Starts hashmap k u = record {
    run = λ m c.
        elim (oid_is_null hashmap)
          as (λ t.
            EndsSafe word (λ _ _. false)
              (and_then
                (and_then (if t then fault else done tt m) (λ _. peek_oid (word_at hashmap 4)))
                k)) [ true ↦ tt | false ↦ (read-Starts word (word_at hashmap 4) k u).run m c ];
  }

  pub insert_tx-Starts :
      (heap : Heap) (hashmap : PmemOid) (h key : ℕ) (value : PmemOid)
      → Starts word (λ _. false) (insert_tx heap hashmap h key value)
  unfolding insert_tx
  insert_tx-Starts heap hashmap h key value =
      let buckets = oid_in word (word_at hashmap 4) in
      let link = word_at buckets (bucket_word h) in
      read_buckets-Starts hashmap _ (
        call-Starts word _ (
          read_buckets-Starts hashmap _ (
            deref-Starts word buckets _ (
              add-Starts word link 2 _ (
                deref-Starts word hashmap _ (
                  add-Starts word (word_at hashmap 3) 1 _
                    (start word (insert_writes-Undoes heap hashmap buckets h key value))))))))

  -- The writes of `hm_tx_remove`.
  removes-Undoes :
      (hashmap var : PmemOid) (link : ℕ)
      → Undoes word
          (added hashmap link)
          (relink link var >> remove_entry hashmap var)
          (λ _ _. false)
  unfolding relink remove_entry
  removes-Undoes hashmap var link =
      bind-Undoes word
        (bind-Undoes word (deref-Undoes word var) λ _.
          bind-Undoes word (peek_oid-Undoes word (word_at var 3))
            λ next. poke_oid-Undoes word link next (ground arith) (ground arith))
        λ _. bind-Undoes word (peek-Undoes word (word_at hashmap 3)) λ count.
          bind-Undoes word
            (poke-Undoes word (word_at hashmap 3) ((count + u64_mod - 1) % u64_mod) (ground arith))
            λ _. last-Undoes word (tx_free_object-Undoes word var)

  pub remove_tx-Starts :
      (hashmap : PmemOid) (h : ℕ) (prev var : PmemOid)
      → Starts word (λ _. false) (remove_tx hashmap h prev var)
  unfolding remove_tx remove_first remove_later
  remove_tx-Starts hashmap h prev var =
      let buckets = oid_in word (word_at hashmap 4) in
      let link = word_at buckets (bucket_word h) in
      read_buckets-Starts hashmap _
        (elim (oid_is_null prev)
          as (λ t.
            Starts word (λ _. false)
              (if t then remove_first hashmap buckets h var else remove_later hashmap prev var)) [
                | true ↦ call-Starts word _ (
                    read_buckets-Starts hashmap _ (
                      deref-Starts word buckets _ (
                        add-Starts word link 2 _ (
                          deref-Starts word hashmap _ (
                            add-Starts word (word_at hashmap 3) 1 _ (
                              deref-Starts word buckets _
                                (start word (removes-Undoes hashmap var link))))))))
                | false ↦ call-Starts word _ (
                    deref-Starts word prev _ (
                      add-Starts word (word_at prev 3) 2 _ (
                        deref-Starts word hashmap _ (
                          add-Starts word (word_at hashmap 3) 1 _
                            (start word (removes-Undoes hashmap var (word_at prev 3)))))))
              ])
