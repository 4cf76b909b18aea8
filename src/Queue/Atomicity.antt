-- ===== src/Queue/Atomicity.antt =====
-- src/queue/queue.c: the transactions of the queue add every word that they change.
use pmem_rts_cache.Common.{ℕ, ◌+◌, ◌%◌, arith}
use pmem_rts_cache.Pmem.{u64_mod}
use pmem_rts_cache.Pmem.Undo.{word_at, Heap}
use pmem_rts_cache.Pmem.Rollback.{
  IsUndone, first_word, second_word, bind-Undoes, last-Undoes, tx_call-Undoes, peek-Undoes,
  peek_oid-Undoes, deref-Undoes, poke-Undoes, poke_oid-Undoes, tx_add-Undoes, tx_alloc-Undoes,
  tx_free_object-Undoes,
}
use pmem_rts_cache.Queue.Memory.{front_at, back_at, entries_at, enqueue_tx, dequeue_tx}

module _ (word : ℕ → ℕ) where
  pub enqueue_tx-IsUndone :
      (heap : Heap) (queue pos value : ℕ) → IsUndone word (enqueue_tx heap queue pos value)
  unfolding enqueue_tx
  enqueue_tx-IsUndone heap queue pos value = bind-Undoes word (tx_call-Undoes word) λ _.
      bind-Undoes word (tx_add-Undoes word (back_at queue) 1) λ _.
        bind-Undoes word (peek-Undoes word (back_at queue)) λ back.
          bind-Undoes word
            (poke-Undoes word (back_at queue) ((back + 1) % u64_mod)
              (first_word 0 (back_at queue) _))
            λ _. bind-Undoes word (tx_alloc-Undoes word heap heap.unset 1) λ entry.
              bind-Undoes word (deref-Undoes word entry) λ _.
                bind-Undoes word (poke-Undoes word (word_at entry 0) value (ground arith)) λ _.
                  bind-Undoes word (tx_add-Undoes word (entries_at queue pos) 2) λ _.
                    last-Undoes word (
                      poke_oid-Undoes word (entries_at queue pos) entry
                        (first_word 1 (entries_at queue pos) _)
                        (second_word 0 (entries_at queue pos) _))

  pub dequeue_tx-IsUndone : (queue pos : ℕ) → IsUndone word (dequeue_tx queue pos)
  unfolding dequeue_tx
  dequeue_tx-IsUndone queue pos = bind-Undoes word (tx_call-Undoes word) λ _.
      bind-Undoes word (tx_add-Undoes word (front_at queue) 1) λ _.
        bind-Undoes word (peek-Undoes word (front_at queue)) λ front.
          bind-Undoes word
            (poke-Undoes word (front_at queue) ((front + 1) % u64_mod)
              (first_word 0 (front_at queue) _))
            λ _.
              bind-Undoes word (peek_oid-Undoes word (entries_at queue pos))
                λ entry. last-Undoes word (tx_free_object-Undoes word entry)
