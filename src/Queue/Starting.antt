-- ===== src/Queue/Starting.antt =====
-- src/queue/queue.c: `queue_constructor` on memory, and every sequence of calls on the queue that it makes.
use pmem_rts_cache.Common.{
  Bool, ℕ, ◌-◌, ◌/◌, ◌^◌, ◌<◌, ◌≡◌, ◌∙◌, some, List, [], length, get_or, get_or-replicate,
  length-replicate, arith,
}
use pmem_rts_cache.Pmem.{u64_mod}
use pmem_rts_cache.Pmem.Undo.{Heap, put_word}
use pmem_rts_cache.Pmem.{PmemOid}
use pmem_rts_cache.Transactions.Undoing.{AbortCall, CommitCall}
use pmem_rts_cache.Queue.{unset, live, Queue, queue_bytes, queue_constructor}
use pmem_rts_cache.Queue.Invariant.{IsValid, contents, fresh-IsValid}
use pmem_rts_cache.Queue.Ring.{window}
use pmem_rts_cache.Queue.Fifo.{fifo_run}
use pmem_rts_cache.Queue.Memory.{front_at, back_at}
use pmem_rts_cache.Queue.Held.{capacity_at, Holds, IsFree}
use pmem_rts_cache.Queue.Committing.{at_new}
use pmem_rts_cache.Queue.Running.{WordCall, run_on_words, fifo_after, ops_of, words_run_refines}

-- `queue_constructor`, on what libpmemobj has allocated at an offset.
abbrev pub construct_on_words : (ℕ → ℕ) → ℕ → ℕ → ℕ → ℕ
construct_on_words word queue capacity =
    put_word (put_word (put_word word (front_at queue) 0) (back_at queue) 0) (capacity_at queue)
      capacity

constructed-Holds :
    (size : PmemOid → ℕ) (objects : ℕ → Bool) (word : ℕ → ℕ) (queue capacity : ℕ)
    → capacity < 2 ^ 59
    → Holds size objects
        (construct_on_words word queue capacity)
        queue
        (queue_constructor (queue_bytes capacity) capacity)
unfolding queue_constructor
constructed-Holds size objects word queue capacity fits = record {
  front = ground arith;
  back = ground arith;
  capacity = ground arith;
  width = length-replicate _ unset ∙ omega arith;
  value = λ i v small has. absurd (no_value i v has);
  apart = λ i v small has. absurd (no_value i v has);
  allocated = λ i v small has. absurd (no_value i v has);
  beside = λ i v small has b low high. absurd (no_value i v has);
  disjoint = λ i j v w small small' differ has has'. absurd (no_value i v has);
}
  where
    no_value :
        (i v : ℕ)
        → get_or (queue_constructor (queue_bytes capacity) capacity).entries i unset ≡ live v
        → ⊥
    no_value i v has =
        unset≢live (rw (get_or-replicate ((queue_bytes capacity - 24) / 16) i unset) at has)
      where
        unset≢live : unset ≡ live v → ⊥
        unset≢live e = cc

-- On the queue that `queue_constructor` makes of an allocation, whatever was there before and whichever
-- calls of libpmemobj fail: any sequence of fewer than 2 ^ 64 calls of `queue_enqueue` and `queue_dequeue`
-- divides by no zero, writes through no null pointer and frees only what is allocated, and returns what an
-- empty FIFO of that capacity returns. Memory then holds a valid queue with the values that the FIFO has
-- left, each in an allocated entry. This is so if the slots fit `size_t` in octets, a new entry is put
-- apart from the queue and its entries, an abort writes the snapshots back, and a commit leaves the words
-- that are not of a freed object.
pub queue_constructor-run_on_words :
    (l : AbortCall) (c : CommitCall) (heap : Heap) (queue : ℕ)
    → ((word : ℕ → ℕ) (objects : ℕ → Bool) (q : Queue) (n : ℕ)
        → Holds c.size objects word queue q
        → IsFree c.size word queue q (heap.place (at_new word queue n) 1))
    → (ws : List WordCall) (word : ℕ → ℕ) (objects : ℕ → Bool) (capacity : ℕ) → capacity < 2 ^ 59
    → length ws < u64_mod
    → (word' : ℕ → ℕ) × (objects' : ℕ → Bool) × (q' : Queue) × (run_on_words l c heap
          (construct_on_words word queue capacity)
          objects
          queue
          ws
        ≡ some (fifo_run capacity [] (ops_of ws), word', objects'))
      × Holds c.size objects' word' queue q'
      × IsValid q'
      × (contents q' ≡ fifo_after capacity [] (ops_of ws))
unfolding queue_constructor window
queue_constructor-run_on_words l c heap queue places ws word objects capacity fits room =
    words_run_refines l c heap queue places ws (construct_on_words word queue capacity) objects
      (queue_constructor (queue_bytes capacity) capacity)
      (constructed-Holds c.size objects word queue capacity fits) (fresh-IsValid capacity fits)
      (omega (arith, room))
