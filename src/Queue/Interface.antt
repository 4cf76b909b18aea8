-- ===== src/Queue/Interface.antt =====
-- src/queue/queue.h: the interface of the queue, what a client may rely on, and the functions of
-- src/queue/queue.c as an implementation. `queue_free` is declared and never defined, so it has no field.
use pmem_rts_cache.Common.{
  ℕ, ◌+◌, ◌-◌, ◌^◌, ◌≤◌, ◌<◌, ◌≡◌, refl, sym, ◌∙◌, ap, Bool, true, ◌&&◌, Option, none, some, List,
  [], ◌∷◌, ◌++◌, ◌>>=◌, length, length-append, lt→ltb, leb, Bool-cases, inl, inr, arith,
}
use mathlib.Core.List.{append-nil, append_assoc}
use pmem_rts_cache.Pmem.{u64_mod, max_alloc_size}
use pmem_rts_cache.Queue.{
  Queue, Status, queue_bytes, queue_constructor, queue_new, queue_size, queue_enqueue,
  queue_dequeue,
}
use pmem_rts_cache.Queue.Fifo.{enqueue, dequeue, fifo_step}
use pmem_rts_cache.Queue.Invariant.{
  IsValid, contents, queue_size_lem, queue_new-IsValid, length-contents,
}
use pmem_rts_cache.Queue.Enqueue.{queue_enqueue_lem}
use pmem_rts_cache.Queue.Dequeue.{queue_dequeue_lem}

-- The functions that the header declares and the source defines. The truth values are what libpmemobj
-- decides about an allocation or a transaction.
pub record QueueOps (Q : Type 0) : Type 0 where
  pub constructed : ℕ → ℕ → Q
  pub new : Bool → ℕ → Option Q
  pub size : Q → ℕ
  pub enqueue : Bool → Option Q → ℕ → Option (Status × Option Q)
  pub dequeue : Bool → Option Q → Option (Status × Option Q)

abbrev pub queue : QueueOps Queue
queue = record {
  constructed = queue_constructor;
  new = queue_new;
  size = queue_size;
  enqueue = queue_enqueue;
  dequeue = queue_dequeue;
}

-- What a client of the header may rely on: the queue reads as a FIFO of a capacity, for as many calls as
-- its counters have left.
pub record IsQueue {Q : Type 0} (o : QueueOps Q) : Type 1 where
  pub Valid : Q → Type 0
  pub view : Q → List ℕ
  pub capacity : Q → ℕ
  pub calls_left : Q → ℕ
  pub new_law :
      (allocates : Bool) (size : ℕ) (q : Q)
      → size < 2 ^ 59
      → o.new allocates size ≡ some q
      → Valid q × (view q ≡ []) × (capacity q ≡ size) × (2 ^ 63 ≤ calls_left q)
  pub size_law : (q : Q) → Valid q → o.size q ≡ length (view q)
  pub enqueue_law :
      (commits : Bool) (q : Q) (value : ℕ)
      → Valid q
      → 0 < calls_left q
      → (r : Status × Q) × (o.enqueue commits (some q) value ≡ some (r.0, some r.1))
        × Valid r.1
        × (capacity r.1 ≡ capacity q)
        × (calls_left q ≤ calls_left r.1 + 1)
        × (fifo_step (capacity q) (view q) (enqueue commits value) ≡ (r.0, view r.1))
  pub dequeue_law :
      (commits : Bool) (q : Q)
      → Valid q
      → (r : Status × Q) × (o.dequeue commits (some q) ≡ some (r.0, some r.1))
        × Valid r.1
        × (capacity r.1 ≡ capacity q)
        × (calls_left q ≤ calls_left r.1)
        × (fifo_step (capacity q) (view q) (dequeue commits) ≡ (r.0, view r.1))

queue_new-starts :
    (allocates : Bool) (size : ℕ) (q : Queue) → queue_new allocates size ≡ some q → q.back ≡ 0
unfolding queue_new queue_constructor
queue_new-starts allocates size q made =
    elim (Bool-cases (allocates && leb (queue_bytes size) max_alloc_size)) [
      | inl e ↦ ap (λ r. r.back) (sym (some-inj (rw e at made)))
      | inr e ↦ absurd (none≢some (rw e at made))
    ]
  where
    none≢some : ◌≡◌ {A = Option Queue} none (some q) → ⊥
    none≢some e = cc

    some-inj : {r : Queue} → some r ≡ some q → r ≡ q
    some-inj e = cc

-- The functions of the source keep to that.
pub queue-IsQueue : IsQueue queue
queue-IsQueue = record {
  Valid = IsValid;
  view = contents;
  capacity = λ q. q.capacity;
  calls_left = λ q. u64_mod - (q.back + 1);
  new_law = λ allocates size q fits made.
      let (v, empty, cap) = queue_new-IsValid allocates size q fits made in
      let fresh : q.back ≡ 0 = queue_new-starts allocates size q made in
      (v, empty, cap, omega (arith, fresh));
  size_law = λ q v. queue_size_lem q v ∙ sym (length-contents q);
  enqueue_law = λ commits q value v left.
      let (r, ran, valid, cap, back, seen, _) =
        queue_enqueue_lem commits q value v (omega (arith, left)) in
      (r, ran, valid, cap, omega (arith, back), seen);
  dequeue_law = λ commits q v.
      let (r, ran, valid, cap, back, seen, _) = queue_dequeue_lem commits q v in
      (r, ran, valid, cap, omega (arith, back), seen);
}

module _ {Q : Type 0} (o : QueueOps Q) (l : IsQueue o) where
  -- A client that enqueues values, each in a transaction that commits.
  unfoldable pub enqueue_all : Q → List ℕ → Option (Option Q)
  enqueue_all q [] = some (some q)
  enqueue_all q (value ∷ values) = do
    (s, q') ← o.enqueue true (some q) value
    elim q' [ none ↦ some none | some next ↦ enqueue_all next values ]

  -- With room for them, on any queue that keeps to its interface, the values stand behind those that
  -- were there.
  pub enqueue_all_lem :
      (values : List ℕ) (q : Q)
      → l.Valid q
      → length (l.view q) + length values ≤ l.capacity q
      → length values ≤ l.calls_left q
      → (q' : Q) × (enqueue_all q values ≡ some (some q'))
        × l.Valid q'
        × (l.view q' ≡ l.view q ++ values)
        × (o.size q' ≡ length (l.view q) + length values)
  unfolding enqueue_all fifo_step
  enqueue_all_lem [] q v room left =
      (q, refl, v, sym (append-nil (l.view q)), l.size_law q v ∙ omega arith)
  enqueue_all_lem (value ∷ values) q v room left =
      let (r, ran, v1, cap, fewer, seen) = l.enqueue_law true q value v (omega arith) in
      let fits = lt→ltb (length (l.view q)) (l.capacity q) (omega (arith, room)) in
      let view1 : l.view q ++ value ∷ [] ≡ l.view r.1 = ap (λ t. t.1) (rw fits at seen) in
      let longer : length (l.view r.1) ≡ length (l.view q) + 1 =
        ap length (sym view1) ∙ length-append (l.view q) (value ∷ []) in
      let (q', ran', v', read, size) =
        enqueue_all_lem values r.1 v1 (omega (arith, room, longer, cap))
          (omega (arith, left, fewer)) in
      (
        q',
        rw ran ran',
        v',
        read ∙ ap (λ t. t ++ values) (sym view1) ∙ append_assoc (l.view q) (value ∷ []) values,
        size ∙ omega (arith, longer),
      )
