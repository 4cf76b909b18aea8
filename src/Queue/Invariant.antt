-- ===== src/Queue/Invariant.antt =====
-- src/queue/queue.c: the invariant of the ring, and what `queue_new` makes.
use pmem_rts_cache.Common.{
  ℕ, ◌-◌, ◌%◌, ◌^◌, ◌≤◌, ◌<◌, ◌≡◌, refl, ◌∙◌, subst, Bool, ◌&&◌, Option, none, some, List, [],
  length, get_or, get_elem?, get_elem?-eq-get_or, length-replicate, arith, Bool-cases, inl, inr,
  leb,
}
use pmem_rts_cache.Pmem.{u64_mod, max_alloc_size}
use pmem_rts_cache.Queue.{
  unset, live, Queue, queue_bytes, queue_constructor, queue_new, queue_size, slot_of,
}
use pmem_rts_cache.Queue.Ring.{window, length-window}

-- `used` says that the slots from `front` to `back` hold allocated entries.
pub record IsValid (q : Queue) : Type 0 where
  pub width : length q.entries ≡ q.capacity
  pub ordered : q.front ≤ q.back
  pub counts : q.back < u64_mod
  pub room : q.back - q.front ≤ q.capacity
  pub used :
      (i : ℕ)
      → q.front ≤ i
      → i < q.back
      → (v : ℕ) × (get_or q.entries (i % q.capacity) unset ≡ live v)

-- The queue's values, oldest first.
abbrev pub contents : Queue → List ℕ
contents q = window q.capacity q.entries q.front (q.back - q.front)

pub queue_size_lem : (q : Queue) → IsValid q → queue_size q ≡ q.back - q.front
unfolding queue_size
queue_size_lem q v = omega arith

pub fresh-IsValid : (size : ℕ) → size < 2 ^ 59 → IsValid (queue_constructor (queue_bytes size) size)
unfolding queue_constructor
fresh-IsValid size fits = record {
  width = length-replicate _ unset ∙ omega arith;
  ordered = omega arith;
  counts = omega arith;
  room = omega arith;
  used = λ i p r. absurd (omega arith);
}

-- What `queue_new` returns where libpmemobj allocates is valid, empty and of the size asked for, if
-- that many slots fit `size_t` in bytes.
pub queue_new-IsValid :
    (allocates : Bool) (size : ℕ) (q : Queue)
    → size < 2 ^ 59
    → queue_new allocates size ≡ some q
    → IsValid q × (contents q ≡ []) × (q.capacity ≡ size)
unfolding queue_new
queue_new-IsValid allocates size q fits made =
    elim (Bool-cases (allocates && leb (queue_bytes size) max_alloc_size)) [
      | inr e ↦ absurd (none≢some (rw e at made))
      | inl e ↦
          let same : queue_constructor (queue_bytes size) size ≡ q = cc (rw e at made) in
          subst (λ r. IsValid r × (contents r ≡ []) × (r.capacity ≡ size)) same
            (
              fresh-IsValid size fits,
              unfold queue_constructor window in refl,
              unfold queue_constructor in refl,
            )
    ]
  where
    none≢some : ◌≡◌ {A = Option Queue} none (some q) → ⊥
    none≢some e = cc

pub length-contents : (q : Queue) → length (contents q) ≡ q.back - q.front
length-contents q = length-window q.capacity q.entries q.front (q.back - q.front)

-- The read of the slot at index `i` of a queue with room for one does not fault.
pub slot_read :
    (q : Queue) (i : ℕ)
    → IsValid q
    → 0 < q.capacity
    → (slot_of i q ≡ some (i % q.capacity))
      × (get_elem? q.entries (i % q.capacity) ≡ some (get_or q.entries (i % q.capacity) unset))
unfolding slot_of
slot_read q i v pos =
    (ground arith, get_elem?-eq-get_or q.entries (i % q.capacity) unset (omega (arith, v.width)))
