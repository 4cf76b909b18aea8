-- ===== src/Queue/Running.antt =====
-- src/queue/queue.c: every sequence of calls on memory that holds a queue, against the FIFO of its values.
use pmem_rts_cache.Common.{
  ap, ◌≤◌, Bool, ℕ, ◌+◌, ◌<◌, ◌≡◌, refl, sym, ◌∙◌, subst, Option, some, List, [], ◌∷◌, ◌>>=◌,
  length, leb, arith,
}
use pmem_rts_cache.Pmem.{u64_mod}
use pmem_rts_cache.Pmem.Undo.{Heap}
use pmem_rts_cache.Transactions.Undoing.{AbortCall, CommitCall}
use pmem_rts_cache.Queue.{Status, Queue}
use pmem_rts_cache.Queue.Invariant.{IsValid, contents}
use pmem_rts_cache.Queue.Fifo as Fifo
use pmem_rts_cache.Queue.Fifo.{Op, fifo_step, fifo_run}
use pmem_rts_cache.Queue.Calls.{call, call_refines}
use pmem_rts_cache.Queue.Held.{Holds, IsFree}
use pmem_rts_cache.Queue.Committing.{at_new}
use pmem_rts_cache.Queue.Simulation.{enqueue_on_words, queue_enqueue-on_words}
use pmem_rts_cache.Queue.Emptying.{dequeue_on_words, queue_dequeue-on_words}

-- A call, with how many calls of libpmemobj succeed in it.
pub data WordCall : Type 0 where
  enqueue : ℕ → ℕ → WordCall
  dequeue : ℕ → WordCall

unfoldable pub call_on_words :
    AbortCall
    → CommitCall
    → Heap
    → (ℕ → ℕ)
    → (ℕ → Bool)
    → ℕ
    → WordCall
    → Option (Status × (ℕ → ℕ) × (ℕ → Bool))
call_on_words l c heap word objects queue (enqueue value luck) =
    enqueue_on_words l c heap word objects queue value luck
call_on_words l c heap word objects queue (dequeue luck) =
    dequeue_on_words l c word objects queue luck

unfoldable pub run_on_words :
    AbortCall
    → CommitCall
    → Heap
    → (ℕ → ℕ)
    → (ℕ → Bool)
    → ℕ
    → List WordCall
    → Option (List Status × (ℕ → ℕ) × (ℕ → Bool))
run_on_words l c heap word objects queue [] = some ([], word, objects)
run_on_words l c heap word objects queue (w ∷ ws) = do
  (s, word', objects') ← call_on_words l c heap word objects queue w
  (ss, word'', objects'') ← run_on_words l c heap word' objects' queue ws
  some (s ∷ ss, word'', objects'')

-- The call of the FIFO: a transaction commits where each of its calls of libpmemobj succeeds.
abbrev pub op_of : WordCall → Op
op_of (enqueue value luck) = Fifo.enqueue (leb 4 luck) value
op_of (dequeue luck) = Fifo.dequeue (leb 3 luck)

abbrev pub ops_of : List WordCall → List Op
ops_of [] = []
ops_of (w ∷ ws) = op_of w ∷ ops_of ws

-- The values that are left after the calls.
unfoldable pub fifo_after : ℕ → List ℕ → List Op → List ℕ
fifo_after cap xs [] = xs
fifo_after cap xs (op ∷ ops) = fifo_after cap (fifo_step cap xs op).1 ops

call_on_words_refines :
    (l : AbortCall) (c : CommitCall) (heap : Heap) (word : ℕ → ℕ) (objects : ℕ → Bool) (queue : ℕ)
    (q : Queue) (w : WordCall)
    → ((n : ℕ) → IsFree c.size word queue q (heap.place (at_new word queue n) 1))
    → Holds c.size objects word queue q
    → IsValid q
    → (s : Status) × (q' : Queue) × (word' : ℕ → ℕ) × (objects' : ℕ → Bool) × (call_on_words l c
          heap word objects queue w
        ≡ some (s, word', objects'))
      × (call (some q) (op_of w) ≡ some (s, some q'))
      × Holds c.size objects' word' queue q'
unfolding call_on_words call
call_on_words_refines l c heap word objects queue q (enqueue value luck) free h v =
    queue_enqueue-on_words l c heap word objects queue q value luck h v free
call_on_words_refines l c heap word objects queue q (dequeue luck) free h v =
    queue_dequeue-on_words l c word objects queue q luck h v

same_outcome :
    {s t : Status} {p q : Queue}
    → ◌≡◌ {A = Option (Status × Option Queue)} (some (s, some p)) (some (t, some q))
    → (s ≡ t) × (p ≡ q)
same_outcome e = (cc, cc)

step_refines :
    (l : AbortCall) (c : CommitCall) (heap : Heap) (word : ℕ → ℕ) (objects : ℕ → Bool) (queue : ℕ)
    (q : Queue) (w : WordCall)
    → ((n : ℕ) → IsFree c.size word queue q (heap.place (at_new word queue n) 1))
    → Holds c.size objects word queue q
    → IsValid q
    → q.back + 1 < u64_mod
    → (r : Status × Queue) × (word' : ℕ → ℕ) × (objects' : ℕ → Bool) × (call_on_words l c heap word
          objects queue w
        ≡ some (r.0, word', objects'))
      × Holds c.size objects' word' queue r.1
      × IsValid r.1
      × (r.1.capacity ≡ q.capacity)
      × (r.1.back ≤ q.back + 1)
      × (fifo_step q.capacity (contents q) (op_of w) ≡ (r.0, contents r.1))
step_refines l c heap word objects queue q w free h v room =
    let (s, q1, word', objects', ran, does, holds) =
      call_on_words_refines l c heap word objects queue q w free h v in
    let (r, ran', valid, cap, back, seen) = call_refines q (op_of w) v room in
    let (same_s, same_q) = same_outcome (sym does ∙ ran') in
    (
      r,
      word',
      objects',
      ran ∙ ap (λ t. some (t, word', objects')) same_s,
      subst (Holds c.size objects' word' queue) same_q holds,
      valid,
      cap,
      back,
      seen,
    )

-- `queue_enqueue` and `queue_dequeue` on memory that holds a valid queue: whichever calls of libpmemobj
-- fail, any sequence of calls divides by no zero, writes through no null pointer and frees only what is
-- allocated, and returns what the bounded FIFO of the values of the queue returns. Memory then holds a valid
-- queue with the values that the FIFO has left, each in an allocated entry. This is so if `back` stays in
-- `size_t`, a new entry is put apart from the queue and its entries, an abort writes the snapshots back,
-- and a commit leaves the words that are not of a freed object.
pub words_run_refines :
    (l : AbortCall) (c : CommitCall) (heap : Heap) (queue : ℕ)
    → ((word : ℕ → ℕ) (objects : ℕ → Bool) (q : Queue) (n : ℕ)
        → Holds c.size objects word queue q
        → IsFree c.size word queue q (heap.place (at_new word queue n) 1))
    → (ws : List WordCall) (word : ℕ → ℕ) (objects : ℕ → Bool) (q : Queue)
    → Holds c.size objects word queue q
    → IsValid q
    → q.back + length ws < u64_mod
    → (word' : ℕ → ℕ) × (objects' : ℕ → Bool) × (q' : Queue) × (run_on_words l c heap word objects
          queue ws
        ≡ some (fifo_run q.capacity (contents q) (ops_of ws), word', objects'))
      × Holds c.size objects' word' queue q'
      × IsValid q'
      × (contents q' ≡ fifo_after q.capacity (contents q) (ops_of ws))
unfolding run_on_words fifo_run fifo_after
words_run_refines l c heap queue places [] word objects q h v room =
    (word, objects, q, refl, h, v, refl)
words_run_refines l c heap queue places (w ∷ ws) word objects q h v room =
    let (r, word1, objects1, ran, holds, valid, cap, back, seen) =
      step_refines l c heap word objects queue q w (λ n. places word objects q n h) h v
        (omega arith) in
    let (word', objects', q', later, holds', valid', left) =
      words_run_refines l c heap queue places ws word1 objects1 r.1 holds valid (omega arith) in
    (
      word',
      objects',
      q',
      rw (ran, ◌>>=◌, later, seen, cap) refl,
      holds',
      valid',
      subst (λ t. contents q' ≡ fifo_after q.capacity t.1 (ops_of ws)) (sym seen)
          (subst (λ n. contents q' ≡ fifo_after n (contents r.1) (ops_of ws)) cap left),
    )
