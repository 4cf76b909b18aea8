-- ===== src/Queue/Emptying.antt =====
-- src/queue/queue.c: `queue_dequeue` on memory, against `queue_dequeue` of the record.
use pmem_rts_cache.Common.{
  ℕ, ◌+◌, ◌-◌, ◌%◌, ◌<◌, ◌≡◌, refl, ◌∙◌, Bool, false, Option, none, some, leb, ◌==◌, if◌then◌else◌,
  ◌>>=◌, inl, inr, ==_false_ne, Bool-cases, arith,
}
use native.Mathlib.Nat.{mod-lt}
use pmem_rts_cache.Pmem.{u64_mod}
use pmem_rts_cache.Pmem.Undo.{at_begin}
use pmem_rts_cache.Transactions.Undoing.{AbortCall, CommitCall, settled}
use pmem_rts_cache.Queue.{
  Status, ok, failed, freed, Queue, queue_size, free_slot, take_front, queue_dequeue,
}
use pmem_rts_cache.Queue.Invariant.{IsValid, queue_size_lem, slot_read}
use pmem_rts_cache.Queue.Memory.{front_at, back_at, dequeue_tx}
use pmem_rts_cache.Queue.Held.{Holds, capacity_at}
use pmem_rts_cache.Queue.Release.{dequeue_tx_refines}
use pmem_rts_cache.Queue.Simulation.{status_of}

-- `queue_dequeue` of a queue that is not NULL, on words of memory.
unfoldable pub dequeue_on_words :
    AbortCall → CommitCall → (ℕ → ℕ) → (ℕ → Bool) → ℕ → ℕ → Option (Status × (ℕ → ℕ) × (ℕ → Bool))
dequeue_on_words l c word objects queue luck =
    let front = word (front_at queue) in
    let back = word (back_at queue) in
    let capacity = word (capacity_at queue) in
    if (back + u64_mod - front) % u64_mod == 0
    then some (failed, word, objects)
    else if capacity == 0
    then none
    else (do
      result ← settled l c objects (dequeue_tx queue (front % capacity) (at_begin word luck))
      some (status_of result))

-- The fields as they are read.
fields_read :
    (l : AbortCall) (c : CommitCall) (word : ℕ → ℕ) (objects : ℕ → Bool) (queue : ℕ) (q : Queue)
    (luck : ℕ)
    → Holds c.size objects word queue q
    → dequeue_on_words l c word objects queue luck ≡ (
        if queue_size q == 0
        then some (failed, word, objects)
        else if q.capacity == 0
        then none
        else (do
          result ←
              settled l c objects (dequeue_tx queue (q.front % q.capacity) (at_begin word luck))
          some (status_of result)))
unfolding dequeue_on_words queue_size
fields_read l c word objects queue q luck h = rw (h.back, h.front, h.capacity) refl

-- The record, where it is not empty.
take_or_not :
    (q : Queue) (commits : Bool)
    → IsValid q
    → (queue_size q == 0) ≡ false
    → q.front < q.back
    → queue_dequeue commits (some q)
      ≡ some (
          if commits
          then (ok, some (take_front q (q.front % q.capacity) freed))
          else (failed, some q))
unfolding queue_dequeue free_slot
take_or_not q commits v filled some_value =
    let (slot, read) = slot_read q q.front v (omega (arith, v.room, some_value)) in
    let (w, has) = v.used q.front (omega arith) some_value in
    rw (filled, slot, ◌>>=◌, read, has) refl

-- `queue_dequeue` on memory that holds a valid queue does what `queue_dequeue` of the record does, with the
-- same result, and memory then holds the queue that the record has become. This is so wherever libpmemobj
-- fails, if an abort writes the snapshots back, and a commit leaves the words that are not of a freed
-- object.
pub queue_dequeue-on_words :
    (l : AbortCall) (c : CommitCall) (word : ℕ → ℕ) (objects : ℕ → Bool) (queue : ℕ) (q : Queue)
    (luck : ℕ)
    → Holds c.size objects word queue q
    → IsValid q
    → (s : Status) × (q' : Queue) × (word' : ℕ → ℕ) × (objects' : ℕ → Bool) × (dequeue_on_words l c
          word objects queue luck
        ≡ some (s, word', objects'))
      × (queue_dequeue (leb 3 luck) (some q) ≡ some (s, some q'))
      × Holds c.size objects' word' queue q'
unfolding queue_dequeue
queue_dequeue-on_words l c word objects queue q luck h v =
    let read = fields_read l c word objects queue q luck h in
    let pos = q.front % q.capacity in
    elim (Bool-cases (queue_size q == 0)) [
      | inl empty ↦ (failed, q, word, objects, read ∙ rw empty refl, rw empty refl, h)
      | inr filled ↦
          let ne = ==_false_ne (queue_size q) 0 filled in
          let some_value : q.front < q.back = omega (arith, queue_size_lem q v, ne) in
          let there : (q.capacity == 0) ≡ false = ground (arith, v.room) in
          let fits : pos < q.capacity = mod-lt q.front (omega (arith, v.room, some_value)) in
          let (w, has) = v.used q.front (omega arith) some_value in
          let (word', objects', ran, holds) =
            dequeue_tx_refines l c objects word queue q pos w luck h fits has in
          let record_does = take_or_not q (leb 3 luck) v filled some_value in
          elim (Bool-cases (leb 3 luck)) [
            | inl e ↦ (
              ok,
              take_front q pos freed,
              word',
              objects',
              read ∙ rw (filled, there, ran, ◌>>=◌, e) refl,
              record_does ∙ rw e refl,
              rw e at holds,
            )
            | inr e ↦ (
              failed,
              q,
              word',
              objects',
              read ∙ rw (filled, there, ran, ◌>>=◌, e) refl,
              record_does ∙ rw e refl,
              rw e at holds,
            )
          ]
    ]
