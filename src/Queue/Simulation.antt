-- ===== src/Queue/Simulation.antt =====
-- src/queue/queue.c: `queue_enqueue` on memory, against `queue_enqueue` of the record.
use pmem_rts_cache.Common.{
  ℕ, ◌+◌, ◌-◌, ◌%◌, ◌<◌, ◌≡◌, refl, ◌∙◌, Bool, true, false, Option, none, some, leb, ◌==◌,
  if◌then◌else◌, ◌>>=◌, inl, inr, ==_false_ne, Bool-cases, arith,
}
use native.Mathlib.Nat.{mod-lt}
use pmem_rts_cache.Pmem.{u64_mod}
use pmem_rts_cache.Pmem.Undo.{Heap, at_begin}
use pmem_rts_cache.Transactions.Undoing.{AbortCall, CommitCall, settled}
use pmem_rts_cache.Queue.{Status, ok, failed, Queue, queue_size, put, queue_enqueue}
use pmem_rts_cache.Queue.Invariant.{IsValid, queue_size_lem, slot_read}
use pmem_rts_cache.Queue.Memory.{front_at, back_at, enqueue_tx}
use pmem_rts_cache.Queue.Held.{capacity_at, Holds, IsFree}
use pmem_rts_cache.Queue.Committing.{at_new}
use pmem_rts_cache.Queue.Refining.{enqueue_tx_refines}

-- `ret` after TX_END.
abbrev pub status_of : Bool × (ℕ → ℕ) × (ℕ → Bool) → Status × (ℕ → ℕ) × (ℕ → Bool)
status_of (true, word, objects) = (ok, word, objects)
status_of (false, word, objects) = (failed, word, objects)

-- `queue_enqueue` of a queue that is not NULL, on words of memory.
unfoldable pub enqueue_on_words :
    AbortCall
    → CommitCall
    → Heap
    → (ℕ → ℕ)
    → (ℕ → Bool)
    → ℕ
    → ℕ
    → ℕ
    → Option (Status × (ℕ → ℕ) × (ℕ → Bool))
enqueue_on_words l c heap word objects queue value luck =
    let front = word (front_at queue) in
    let back = word (back_at queue) in
    let capacity = word (capacity_at queue) in
    if (back + u64_mod - front) % u64_mod == capacity
    then some (failed, word, objects)
    else if capacity == 0
    then none
    else (do
      result ←
          settled l c objects (enqueue_tx heap queue (back % capacity) value (at_begin word luck))
      some (status_of result))

-- The fields as they are read.
fields_read :
    (l : AbortCall) (c : CommitCall) (heap : Heap) (word : ℕ → ℕ) (objects : ℕ → Bool) (queue : ℕ)
    (q : Queue) (value luck : ℕ)
    → Holds c.size objects word queue q
    → enqueue_on_words l c heap word objects queue value luck ≡ (
        if queue_size q == q.capacity
        then some (failed, word, objects)
        else if q.capacity == 0
        then none
        else (do
          result ←
              settled l c objects
                (enqueue_tx heap queue (q.back % q.capacity) value (at_begin word luck))
          some (status_of result)))
unfolding enqueue_on_words queue_size
fields_read l c heap word objects queue q value luck h = rw (h.back, h.front, h.capacity) refl

-- The record, where it is not full.
put_or_not :
    (q : Queue) (value : ℕ) (commits : Bool)
    → IsValid q
    → (queue_size q == q.capacity) ≡ false
    → 0 < q.capacity
    → queue_enqueue commits (some q) value
      ≡ some (if commits then (ok, some (put q (q.back % q.capacity) value)) else (failed, some q))
unfolding queue_enqueue
put_or_not q value commits v room pos =
    let (slot, read) = slot_read q q.back v pos in rw (room, slot, ◌>>=◌, read) refl

-- `queue_enqueue` on memory that holds a valid queue does what `queue_enqueue` of the record does, with the
-- same result, and memory then holds the queue that the record has become. This is so wherever libpmemobj
-- fails, if it gives a new entry a place that nothing of the queue uses and writes the snapshots back on
-- an abort.
pub queue_enqueue-on_words :
    (l : AbortCall) (c : CommitCall) (heap : Heap) (word : ℕ → ℕ) (objects : ℕ → Bool) (queue : ℕ)
    (q : Queue) (value luck : ℕ)
    → Holds c.size objects word queue q
    → IsValid q
    → ((n : ℕ) → IsFree c.size word queue q (heap.place (at_new word queue n) 1))
    → (s : Status) × (q' : Queue) × (word' : ℕ → ℕ) × (objects' : ℕ → Bool) × (enqueue_on_words l c
          heap word objects queue value luck
        ≡ some (s, word', objects'))
      × (queue_enqueue (leb 4 luck) (some q) value ≡ some (s, some q'))
      × Holds c.size objects' word' queue q'
unfolding queue_enqueue
queue_enqueue-on_words l c heap word objects queue q value luck h v free =
    let read = fields_read l c heap word objects queue q value luck h in
    elim (Bool-cases (queue_size q == q.capacity)) [
      | inl full ↦ (failed, q, word, objects, read ∙ rw full refl, rw full refl, h)
      | inr room ↦
          let ne = ==_false_ne (queue_size q) q.capacity room in
          let pos : 0 < q.capacity = omega (arith, v.room, queue_size_lem q v, ne) in
          let there : (q.capacity == 0) ≡ false = ground arith in
          let (word', objects', ran, holds) =
            enqueue_tx_refines l c objects heap word queue q (q.back % q.capacity) value luck h
              (mod-lt q.back pos) free in
          let record_does = put_or_not q value (leb 4 luck) v room pos in
          elim (Bool-cases (leb 4 luck)) [
            | inl e ↦ (
              ok,
              put q (q.back % q.capacity) value,
              word',
              objects',
              read ∙ rw (room, there, ran, ◌>>=◌, e) refl,
              record_does ∙ rw e refl,
              rw e at holds,
            )
            | inr e ↦ (
              failed,
              q,
              word',
              objects',
              read ∙ rw (room, there, ran, ◌>>=◌, e) refl,
              record_does ∙ rw e refl,
              rw e at holds,
            )
          ]
    ]
