-- ===== src/Queue/Enqueue.antt =====
-- src/queue/queue.c: `queue_enqueue`.
use pmem_rts_cache.Common.{
  ◌⊎◌, ℕ, suc, ◌+◌, ◌-◌, ◌%◌, ◌≤◌, ◌<◌, ◌≡◌, ◌≢◌, refl, sym, ◌∙◌, ap, Bool, some, [], ◌∷◌, ◌++◌,
  length, get_or, set, length-set, get_or-set, arith, ◌==◌, ◌>>=◌, Bool-cases, inl, inr,
  ne→==_false, ==_iff, ==_self, lt→ltb, le→ltb_false,
}
use pmem_rts_cache.Pmem.{u64_mod}
use pmem_rts_cache.Queue.{unset, live, Queue, Status, ok, failed, queue_size, put, queue_enqueue}
use pmem_rts_cache.Queue.Ring.{value_of, mod-add-ne, window-set, window-snoc}
use pmem_rts_cache.Queue.Fifo.{enqueue, fifo_step}
use pmem_rts_cache.Queue.Invariant.{IsValid, contents, queue_size_lem, length-contents, slot_read}

module _ (q : Queue) (v : IsValid q) (value : ℕ) (free : q.back - q.front < q.capacity)
    (counts : q.back + 1 < u64_mod) where
  pos : ℕ
  pos = q.back % q.capacity

  inside : pos < length q.entries
  unfolding pos
  inside = omega (arith, v.width)

  -- The slot that is written is none of those in use.
  apart : (i : ℕ) → q.front ≤ i → i < q.back → i % q.capacity ≢ pos
  unfolding pos
  apart i p r e =
      mod-add-ne q.capacity i (q.back - i) (omega arith) (omega arith)
        (ap (λ t. t % q.capacity) (omega arith) ∙ sym e)

  used-put :
      (i : ℕ)
      → q.front ≤ i
      → i < q.back + 1
      → (w : ℕ) × (get_or (set q.entries pos (live value)) (i % q.capacity) unset ≡ live w)
  unfolding pos
  used-put i p r = elim (Bool-cases (i == q.back)) [
    | inl e ↦ (
      value,
      rw (
        (==_iff i q.back).0 e,
        get_or-set q.entries pos pos (live value) unset inside,
        ==_self pos,
      ),
    )
    | inr e ↦
        let below : i < q.back = ground arith in
        let (w, old) = v.used i p below in
        (
          w,
          rw
              (
                get_or-set q.entries pos (i % q.capacity) (live value) unset inside,
                ne→==_false _ _ (λ e. apart i p below (sym e)),
              )
              old,
        )
  ]

  put-IsValid : IsValid (put q pos value)
  put-IsValid = record {
    width = length-set q.entries pos (live value) ∙ v.width;
    ordered = omega arith;
    counts = omega arith;
    room = omega arith;
    used = λ i p r. used-put i p (omega arith);
  }

  contents-put : contents (put q pos value) ≡ contents q ++ value ∷ []
  unfolding pos
  contents-put =
      let cap = q.capacity in
      let n = q.back - q.front in
      let slots = set q.entries pos (live value) in
      let longer : (q.back + 1) % u64_mod - q.front ≡ suc n = omega arith in
      let end : q.front + n ≡ q.back = omega arith in
      let written : value_of (get_or slots pos unset) ≡ value =
        rw (get_or-set q.entries pos pos (live value) unset inside, ==_self pos) refl in
      rw (longer, window-snoc cap slots q.front n, end, written)
        (ap (λ vs. vs ++ value ∷ [])
          (window-set cap q.entries q.front n q.back (live value) inside
            (λ k p. apart (q.front + k) (omega arith) (omega arith))))

-- `queue_enqueue` of a valid queue whose `back` is not at the top of `size_t` does not fault and
-- keeps the invariant. It fails where the queue is full or the transaction does not commit, and then
-- leaves the queue as it was, its slots included; otherwise it succeeds, the value is the new last one,
-- and of the slots only that at `back` is written to.
pub queue_enqueue_lem :
    (commits : Bool) (q : Queue) (value : ℕ)
    → IsValid q
    → q.back + 1 < u64_mod
    → (r : Status × Queue) × (queue_enqueue commits (some q) value ≡ some (r.0, some r.1))
      × IsValid r.1
      × (r.1.capacity ≡ q.capacity)
      × (r.1.back ≤ q.back + 1)
      × (fifo_step q.capacity (contents q) (enqueue commits value) ≡ (r.0, contents r.1))
      × (((r.0 ≡ failed) × (r.1 ≡ q))
          ⊎ ((r.0 ≡ ok)
              × (r.1.front ≡ q.front)
              × (r.1.entries ≡ set q.entries (q.back % q.capacity) (live value))))
unfolding queue_enqueue fifo_step
queue_enqueue_lem commits q value v counts =
    let len = length-contents q in
    let size = queue_size_lem q v in
    elim (Bool-cases (queue_size q == q.capacity)) [
      | inl full ↦
          let e = (==_iff (queue_size q) q.capacity).0 full in
          (
            (failed, q),
            rw full,
            v,
            refl,
            omega arith,
            rw (le→ltb_false (length (contents q)) q.capacity (omega arith)) (ground arith),
            inl (refl, refl),
          )
      | inr space ↦
          let free : q.back - q.front < q.capacity = ground (arith, v.room) in
          let (slot, read) = slot_read q q.back v (omega arith) in
          let fits = lt→ltb (length (contents q)) q.capacity (omega arith) in
          elim (Bool-cases commits) [
            | inl c ↦ (
              (ok, put q (q.back % q.capacity) value),
              rw (space, slot, ◌>>=◌, read, c),
              unfold pos in put-IsValid q v value free counts,
              refl,
              omega arith,
              rw (c, fits)
                  (unfold pos in ap (λ vs. (ok, vs)) (sym (contents-put q v value free counts))),
              inr (refl, refl, refl),
            )
            | inr c ↦ (
              (failed, q),
              rw (space, slot, ◌>>=◌, read, c),
              v,
              refl,
              omega arith,
              rw c,
              inl (refl, refl),
            )
          ]
    ]
