-- ===== src/Queue.antt =====
-- src/queue/queue.c and queue.h, the persistent ring buffer: its data and its operations.
-- `none` is undefined behaviour: a division by zero, an access outside of `entries`, or a free of
-- what is no allocated entry. A NULL queue is `none` in place of a queue.
pub mod Ring
pub mod Invariant
pub mod Enqueue
pub mod Dequeue
pub mod Fifo
pub mod Calls
pub mod Interface
pub mod Memory
pub mod Atomicity
pub mod Held
pub mod Committing
pub mod Refining
pub mod Simulation
pub mod Release
pub mod Emptying
pub mod Running
pub mod Starting
use pmem_rts_cache.Common.{
  ℕ, zero, suc, ◌+◌, ◌-◌, ◌*◌, ◌/◌, ◌%◌, Bool, ◌&&◌, Option, none, some, List, leb, ◌==◌,
  if◌then◌else◌, ◌>>=◌, get_elem?, set, replicate,
}
use pmem_rts_cache.Pmem.{u64_mod, max_alloc_size}

-- `TOID(struct QueueEntry)`: not yet written, an allocated entry with its value, or an entry that
-- has been freed.
pub data Slot : Type 0 where
  unset : Slot
  live : ℕ → Slot
  freed : Slot

-- `struct Queue`
pub record Queue : Type 0 where
  pub front : ℕ
  pub back : ℕ
  pub capacity : ℕ
  pub entries : List Slot

-- 0 and -1.
pub data Status : Type 0 where
  ok failed : Status

-- The size that `queue_new` allocates, and `queue_constructor` on that many bytes.
abbrev pub queue_bytes : ℕ → ℕ
queue_bytes size = (24 + 16 * size % u64_mod) % u64_mod

unfoldable pub queue_constructor : ℕ → ℕ → Queue
queue_constructor bytes capacity = record {
  front = 0;
  back = 0;
  capacity = capacity;
  entries = replicate ((bytes - 24) / 16) unset;
}

-- `queue_new`: `none` where POBJ_ALLOC fails.
unfoldable pub queue_new : Bool → ℕ → Option Queue
queue_new allocates size =
    if allocates && leb (queue_bytes size) max_alloc_size
    then some (queue_constructor (queue_bytes size) size)
    else none

unfoldable pub queue_size : Queue → ℕ
queue_size q = (q.back + u64_mod - q.front) % u64_mod

-- The remainder that picks a slot.
unfoldable pub slot_of : ℕ → Queue → Option ℕ
slot_of i q = if q.capacity == 0 then none else some (i % q.capacity)

-- The transaction of `queue_enqueue`.
abbrev pub put : Queue → ℕ → ℕ → Queue
put q pos value = record q {
  back = (q.back + 1) % u64_mod;
  entries = set q.entries pos (live value);
}

unfoldable pub queue_enqueue : Bool → Option Queue → ℕ → Option (Status × Option Queue)
queue_enqueue commits none value = some (failed, none)
queue_enqueue commits (some q) value =
    if queue_size q == q.capacity then some (failed, some q) else (do
      pos ← slot_of q.back q
      old ← get_elem? q.entries pos
      some (if commits then (ok, some (put q pos value)) else (failed, some q)))

-- TX_FREE of the entry in a slot.
unfoldable pub free_slot : Slot → Option Slot
free_slot unset = none
free_slot (live value) = some freed
free_slot freed = none

-- The transaction of `queue_dequeue`; the slot keeps its dangling pointer.
abbrev pub take_front : Queue → ℕ → Slot → Queue
take_front q pos slot = record q {
  front = (q.front + 1) % u64_mod;
  entries = set q.entries pos slot;
}

unfoldable pub queue_dequeue : Bool → Option Queue → Option (Status × Option Queue)
queue_dequeue commits none = some (failed, none)
queue_dequeue commits (some q) = if queue_size q == 0 then some (failed, some q) else (do
  pos ← slot_of q.front q
  slot ← get_elem? q.entries pos
  slot' ← free_slot slot
  some (if commits then (ok, some (take_front q pos slot')) else (failed, some q)))
