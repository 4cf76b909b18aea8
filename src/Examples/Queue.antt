-- ===== src/Examples/Queue.antt =====
-- src/queue/queue.c on a queue of two slots with the value 7, after one slot was used and freed.
use pmem_rts_cache.Common.{
  ◌⊎◌, set, ℕ, ◌%◌, ◌≤◌, ◌≡◌, refl, true, some, List, [], ◌∷◌, arith, get_or,
}
use pmem_rts_cache.Queue.{
  unset, live, freed, Queue, Status, ok, failed, queue_enqueue, queue_dequeue, free_slot,
  queue_size, slot_of,
}
use pmem_rts_cache.Queue.Fifo.{Op, enqueue, dequeue, fifo_step}
use pmem_rts_cache.Queue.Invariant.{IsValid, contents}
use pmem_rts_cache.Queue.Enqueue.{queue_enqueue_lem}
use pmem_rts_cache.Queue.Dequeue.{queue_dequeue_lem}
use pmem_rts_cache.Queue.Calls.{call, run}

abbrev one_value : Queue
one_value = record { front = 1; back = 2; capacity = 2; entries = freed ∷ live 7 ∷ [] }

used_slot : (i : ℕ) → i ≡ 1 → get_or (freed ∷ live 7 ∷ []) (i % 2) unset ≡ live 7
used_slot i e = rw e refl

one_value-IsValid : IsValid one_value
one_value-IsValid = record {
  width = refl;
  ordered = omega arith;
  counts = omega arith;
  room = omega arith;
  used = λ i p q. (7, used_slot i (omega arith));
}

queue_enqueue_lem_example :
    (r : Status × Queue) × (queue_enqueue true (some one_value) 8 ≡ some (r.0, some r.1))
    × IsValid r.1
    × (r.1.capacity ≡ 2)
    × (r.1.back ≤ 3)
    × (fifo_step 2 (contents one_value) (enqueue true 8) ≡ (r.0, contents r.1))
    × (((r.0 ≡ failed) × (r.1 ≡ one_value))
        ⊎ ((r.0 ≡ ok)
            × (r.1.front ≡ one_value.front)
            × (r.1.entries ≡ set one_value.entries (one_value.back % one_value.capacity) (live 8))))
queue_enqueue_lem_example = queue_enqueue_lem true one_value 8 one_value-IsValid (omega arith)

queue_dequeue_lem_example :
    (r : Status × Queue) × (queue_dequeue true (some one_value) ≡ some (r.0, some r.1))
    × IsValid r.1
    × (r.1.capacity ≡ 2)
    × (r.1.back ≡ 2)
    × (fifo_step 2 (contents one_value) (dequeue true) ≡ (r.0, contents r.1))
    × (((r.0 ≡ failed) × (r.1 ≡ one_value))
        ⊎ ((r.0 ≡ ok)
            × (w : ℕ) × (get_or one_value.entries (one_value.front % one_value.capacity) unset
                ≡ live w)
            × (r.1.entries ≡ set one_value.entries (one_value.front % one_value.capacity) freed)))
queue_dequeue_lem_example = queue_dequeue_lem true one_value one_value-IsValid

abbrev five_calls : List Op
five_calls = enqueue true 8 ∷ enqueue true 9 ∷ dequeue true ∷ dequeue true ∷ dequeue true ∷ []

-- The calls succeed until the queue is full, and then until it is empty.
five_calls_statuses : run (some one_value) five_calls ≡ some (ok ∷ failed ∷ ok ∷ ok ∷ failed ∷ [])
unfolding run queue_enqueue queue_dequeue free_slot queue_size slot_of call
five_calls_statuses = refl
