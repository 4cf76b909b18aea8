-- ===== src/Queue/Held.antt =====
-- src/queue/queue.c: the memory that holds a queue.
use pmem_rts_cache.Common.{ℕ, ◌+◌, ◌*◌, ◌≤◌, ◌<◌, ◌≡◌, ◌≢◌, ◌⊎◌, Bool, true, false, length, get_or}
use pmem_rts_cache.Pmem.{PmemOid, oid_is_null}
use pmem_rts_cache.Pmem.Undo.{within}
use pmem_rts_cache.Queue.{unset, live, Queue}
use pmem_rts_cache.Queue.Memory.{front_at, back_at, entries_at}

-- `&queue->capacity`
abbrev pub capacity_at : ℕ → ℕ
capacity_at queue = queue + 16

-- An offset outside of the queue, with so many entries.
abbrev pub Outside : ℕ → ℕ → ℕ → Type 0
Outside queue capacity off = (off < queue) ⊎ (queue + 24 + 16 * capacity ≤ off)

-- The pointer in a slot.
abbrev pub pointer : (ℕ → ℕ) → ℕ → ℕ → PmemOid
pointer word queue pos = record {
  pool_uuid_lo = word (entries_at queue pos);
  off = word (entries_at queue pos + 8);
}

-- A word that is not of an object, which has so many words as `size` says.
abbrev pub Clear : (PmemOid → ℕ) → PmemOid → ℕ → Type 0
Clear size o b = within (size o) o.off b ≡ false

-- The memory holds the queue: its fields, and for each slot with a value a pointer to an entry that is
-- allocated, that has the value, and that is apart from the queue and from the other entries.
pub record Holds (size : PmemOid → ℕ) (objects : ℕ → Bool) (word : ℕ → ℕ) (queue : ℕ) (q : Queue)
    : Type 0 where
  pub front : word (front_at queue) ≡ q.front
  pub back : word (back_at queue) ≡ q.back
  pub capacity : word (capacity_at queue) ≡ q.capacity
  pub width : length q.entries ≡ q.capacity
  pub value :
      (i v : ℕ)
      → i < q.capacity
      → get_or q.entries i unset ≡ live v
      → word (pointer word queue i).off ≡ v
  pub apart :
      (i v : ℕ)
      → i < q.capacity
      → get_or q.entries i unset ≡ live v
      → Outside queue q.capacity (pointer word queue i).off
  pub allocated :
      (i v : ℕ)
      → i < q.capacity
      → get_or q.entries i unset ≡ live v
      → objects (pointer word queue i).off ≡ true
  pub beside :
      (i v : ℕ)
      → i < q.capacity
      → get_or q.entries i unset ≡ live v
      → (b : ℕ) → queue ≤ b
      → b < queue + 24 + 16 * q.capacity
      → Clear size (pointer word queue i) b
  pub disjoint :
      (i j v w : ℕ)
      → i < q.capacity
      → j < q.capacity
      → i ≢ j
      → get_or q.entries i unset ≡ live v
      → get_or q.entries j unset ≡ live w
      → Clear size (pointer word queue i) (pointer word queue j).off

-- A place that libpmemobj may give to a new entry: apart from the queue and from its entries.
pub record IsFree (size : PmemOid → ℕ) (word : ℕ → ℕ) (queue : ℕ) (q : Queue) (o : PmemOid)
    : Type 0 where
  pub there : oid_is_null o ≡ false
  pub apart : Outside queue q.capacity o.off
  pub beside : (b : ℕ) → queue ≤ b → b < queue + 24 + 16 * q.capacity → Clear size o b
  pub unused :
      (i v : ℕ)
      → i < q.capacity
      → get_or q.entries i unset ≡ live v
      → o.off ≢ (pointer word queue i).off
  pub clear :
      (i v : ℕ)
      → i < q.capacity
      → get_or q.entries i unset ≡ live v
      → Clear size o (pointer word queue i).off
  pub cleared :
      (i v : ℕ)
      → i < q.capacity
      → get_or q.entries i unset ≡ live v
      → Clear size (pointer word queue i) o.off
