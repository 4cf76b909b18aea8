-- ===== src/Queue/Dequeue.antt =====
-- src/queue/queue.c: `queue_dequeue`.
use pmem_rts_cache.Common.{
  ◌⊎◌, set, ℕ, suc, ◌+◌, ◌-◌, ◌%◌, ◌<◌, ◌≡◌, ◌≢◌, refl, sym, ◌∙◌, ap, Bool, some, ◌∷◌, length,
  get_or, length-set, get_or-set, arith, ◌==◌, ◌>>=◌, Bool-cases, inl, inr, ne→==_false, ==_iff,
  lt→ltb, le→ltb_false,
}
use pmem_rts_cache.Pmem.{u64_mod}
use pmem_rts_cache.Queue.{
  unset, live, freed, Queue, Status, ok, failed, queue_size, free_slot, take_front, queue_dequeue,
}
use pmem_rts_cache.Queue.Ring.{value_of, mod-add-ne, window, window-set}
use pmem_rts_cache.Queue.Fifo.{dequeue, rest, fifo_step}
use pmem_rts_cache.Queue.Invariant.{IsValid, contents, queue_size_lem, length-contents, slot_read}

module _ (q : Queue) (v : IsValid q) (some_value : q.front < q.back) where
  pos : ℕ
  pos = q.front % q.capacity

  inside : pos < length q.entries
  unfolding pos
  inside = omega (arith, v.width)

  -- The slot that is freed is none of those that stay in use.
  apart : (i : ℕ) → q.front < i → i < q.back → i % q.capacity ≢ pos
  unfolding pos
  apart i p r e =
      mod-add-ne q.capacity q.front (i - q.front) (omega arith) (omega arith)
        (ap (λ t. t % q.capacity) (omega arith) ∙ e)

  take_front-IsValid : IsValid (take_front q pos freed)
  take_front-IsValid = record {
    width = length-set q.entries pos freed ∙ v.width;
    ordered = omega arith;
    counts = v.counts;
    room = omega arith;
    used = λ i p r.
        let (w, old) = v.used i (omega arith) r in
        (
          w,
          rw
              (
                get_or-set q.entries pos (i % q.capacity) freed unset inside,
                ne→==_false _ _ (λ e. apart i (omega arith) r (sym e)),
              )
              old,
        );
  }

  -- The oldest value goes, and the others stay in order.
  contents-take_front :
      contents q ≡ value_of (get_or q.entries pos unset) ∷ contents (take_front q pos freed)
  unfolding pos window
  contents-take_front =
      let fewer : q.back - q.front ≡ suc (q.back - (q.front + 1)) = omega arith in
      let next : (q.front + 1) % u64_mod ≡ q.front + 1 = omega arith in
      rw (fewer, next)
        (ap (λ vs. value_of (get_or q.entries pos unset) ∷ vs)
          (sym (
            window-set q.capacity q.entries (q.front + 1) (q.back - (q.front + 1)) q.front freed
              inside (λ k p. apart (q.front + 1 + k) (omega arith) (omega arith)))))

-- `queue_dequeue` of a valid queue does not fault and keeps the invariant. It fails where the queue is
-- empty or the transaction does not commit, and then leaves the queue as it was, its slots included;
-- otherwise it succeeds, the oldest value is gone, and the slot at `front`, which had an allocated entry,
-- has a freed one, every other slot being as it was.
pub queue_dequeue_lem :
    (commits : Bool) (q : Queue)
    → IsValid q
    → (r : Status × Queue) × (queue_dequeue commits (some q) ≡ some (r.0, some r.1))
      × IsValid r.1
      × (r.1.capacity ≡ q.capacity)
      × (r.1.back ≡ q.back)
      × (fifo_step q.capacity (contents q) (dequeue commits) ≡ (r.0, contents r.1))
      × (((r.0 ≡ failed) × (r.1 ≡ q))
          ⊎ ((r.0 ≡ ok)
              × (w : ℕ) × (get_or q.entries (q.front % q.capacity) unset ≡ live w)
              × (r.1.entries ≡ set q.entries (q.front % q.capacity) freed)))
unfolding queue_dequeue free_slot fifo_step
queue_dequeue_lem commits q v =
    let len = length-contents q in
    let size = queue_size_lem q v in
    elim (Bool-cases (queue_size q == 0)) [
      | inl none_left ↦
          let e = (==_iff (queue_size q) 0).0 none_left in
          (
            (failed, q),
            rw none_left,
            v,
            refl,
            refl,
            rw (le→ltb_false 0 (length (contents q)) (omega arith)) (ground arith),
            inl (refl, refl),
          )
      | inr some_left ↦
          let oldest : q.front < q.back = ground (arith, v.ordered) in
          let (slot, read) = slot_read q q.front v (omega (arith, v.room)) in
          let (w, held) = v.used q.front (omega arith) oldest in
          let fits = lt→ltb 0 (length (contents q)) (omega arith) in
          elim (Bool-cases commits) [
            | inl c ↦ (
              (ok, take_front q (q.front % q.capacity) freed),
              rw (some_left, slot, ◌>>=◌, read, held, c),
              unfold pos in take_front-IsValid q v oldest,
              refl,
              refl,
              rw (c, fits)
                  (unfold pos in ap (λ vs. (ok, rest vs)) (contents-take_front q v oldest)),
              inr (refl, w, held, refl),
            )
            | inr c ↦ (
              (failed, q),
              rw (some_left, slot, ◌>>=◌, read, held, c),
              v,
              refl,
              refl,
              rw c,
              inl (refl, refl),
            )
          ]
    ]
