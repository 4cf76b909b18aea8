-- ===== src/Queue/Memory.antt =====
-- src/queue/queue.c: the transactions of the queue on words of memory, statement by statement. `struct Queue`
-- has `front`, `back` and `capacity` at the words 0, 1 and 2, and two words for each of `entries`.
use pmem_rts_cache.Common.{ℕ, ◌+◌, ◌*◌, ◌%◌}
use pmem_rts_cache.Pmem.{u64_mod}
use pmem_rts_cache.Pmem.Undo.{
  Code, ◌>>=◌, ◌>>◌, tx_call, deref, word_at, peek, poke, peek_oid, poke_oid, tx_add, Heap,
  tx_alloc, tx_free_object,
}

-- `&queue->front`, `&queue->back` and `&queue->entries[pos]`, of the queue at an offset.
abbrev pub front_at : ℕ → ℕ
front_at queue = queue

abbrev pub back_at : ℕ → ℕ
back_at queue = queue + 8

abbrev pub entries_at : ℕ → ℕ → ℕ
entries_at queue pos = queue + 24 + 16 * pos

-- From TX_BEGIN to TX_ONABORT of `queue_enqueue`.
unfoldable pub enqueue_tx : Heap → ℕ → ℕ → ℕ → Code (Unit {0})
unfolding tx_call deref peek poke poke_oid tx_add tx_alloc
enqueue_tx heap queue pos value = do
  tx_call
  tx_add (back_at queue) 1
  back ← peek (back_at queue)
  poke (back_at queue) ((back + 1) % u64_mod)
  entry ← tx_alloc heap heap.unset 1
  deref entry
  poke (word_at entry 0) value
  tx_add (entries_at queue pos) 2
  poke_oid (entries_at queue pos) entry

-- From TX_BEGIN to TX_ONABORT of `queue_dequeue`.
unfoldable pub dequeue_tx : ℕ → ℕ → Code (Unit {0})
unfolding tx_call peek poke peek_oid tx_add tx_free_object
dequeue_tx queue pos = do
  tx_call
  tx_add (front_at queue) 1
  front ← peek (front_at queue)
  poke (front_at queue) ((front + 1) % u64_mod)
  entry ← peek_oid (entries_at queue pos)
  tx_free_object entry
