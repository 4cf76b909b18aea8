-- ===== src/Queue/Release.antt =====
-- src/queue/queue.c: the transaction of `queue_dequeue` on memory, against that of the record.
use pmem_rts_cache.Common.{
  true, false, Bool, ℕ, zero, suc, ◌+◌, ◌-◌, ◌*◌, ◌%◌, ◌≤◌, ◌<◌, ◌≡◌, ◌≢◌, refl, sym, ◌∙◌, ap,
  subst, false, some, [], ◌∷◌, leb, ◌==◌, if◌then◌else◌, get_or, get_or-set, set, length,
  length-set, inl, inr, ne→==_false, ==_iff, ==_false_ne, Bool-cases, arith,
}
use pmem_rts_cache.Pmem.{PmemOid, u64_mod}
use pmem_rts_cache.Pmem.Undo.{
  Memory, put_word, aborted, done, tx_call, peek, poke, peek_oid, tx_add, tx_free_object, at_begin,
}
use pmem_rts_cache.Transactions.Undoing.{
  without, with_owned, AbortCall, CommitCall, settled, dequeue, undone_at_call,
}
use pmem_rts_cache.Queue.{unset, live, freed, Queue, take_front}
use pmem_rts_cache.Queue.Memory.{front_at, back_at, entries_at, dequeue_tx}
use pmem_rts_cache.Queue.Held.{Outside, pointer, Clear, Holds}
use pmem_rts_cache.Queue.Committing.{end_of}

-- The words at the end of the transaction of `queue_dequeue`.
abbrev dequeued : (ℕ → ℕ) → ℕ → ℕ → ℕ
dequeued word queue = put_word word (front_at queue) ((word (front_at queue) + 1) % u64_mod)

dequeue_tx-words :
    (word : ℕ → ℕ) (queue pos n : ℕ)
    → entries_at queue pos ≢ front_at queue
    → entries_at queue pos + 8 ≢ front_at queue
    → (m : Memory) × (dequeue_tx queue pos (at_begin word (suc (suc (suc n)))) ≡ done tt m)
      × (m.word ≡ dequeued word queue)
      × (m.freed ≡ pointer word queue pos ∷ [])
unfolding dequeue_tx tx_call tx_add peek poke peek_oid tx_free_object
dequeue_tx-words word queue pos n other other' = (
  end_of (dequeue_tx queue pos (at_begin word (suc (suc (suc n))))),
  refl,
  refl,
  rw (ne→==_false _ _ other, ne→==_false _ _ other') refl,
)

dequeue_tx_aborts :
    (word : ℕ → ℕ) (queue pos luck : ℕ)
    → luck < 3
    → (m : Memory) × (dequeue_tx queue pos (at_begin word luck) ≡ aborted m)
      × (m.freed ≡ [])
      × ((b : ℕ) → m.owned b ≡ false)
unfolding dequeue_tx tx_call tx_add peek poke peek_oid tx_free_object
dequeue_tx_aborts word queue pos zero few =
    (end_of (dequeue_tx queue pos (at_begin word 0)), refl, refl, λ b. refl)
dequeue_tx_aborts word queue pos (suc zero) few =
    (end_of (dequeue_tx queue pos (at_begin word 1)), refl, refl, λ b. refl)
dequeue_tx_aborts word queue pos (suc (suc zero)) few =
    (end_of (dequeue_tx queue pos (at_begin word 2)), refl, refl, λ b. refl)
dequeue_tx_aborts word queue pos (suc (suc (suc luck))) few = absurd (omega arith)

module _ (word after : ℕ → ℕ) (queue : ℕ) (q : Queue) (pos v : ℕ) (size : PmemOid → ℕ)
    (objects objects' : ℕ → Bool) (h : Holds size objects word queue q) (fits : pos < q.capacity)
    (taken : get_or q.entries pos unset ≡ live v)
    (same : (b : ℕ) → Clear size (pointer word queue pos) b → after b ≡ dequeued word queue b)
    (kept : (b : ℕ)
      → Clear size (pointer word queue pos) b
      → objects b ≡ true
      → objects' b ≡ true) where
  -- A word of the queue but `front`.
  field_kept :
      (b : ℕ) → queue ≤ b → b < queue + 24 + 16 * q.capacity → b ≢ front_at queue → after b ≡ word b
  field_kept b low high other =
      same b (h.beside pos v fits taken b low high) ∙ rw (ne→==_false b (front_at queue) other) refl

  pointer_kept : (i : ℕ) → i < q.capacity → pointer word queue i ≡ pointer after queue i
  pointer_kept i small =
      rw
        (
          field_kept (entries_at queue i) (omega arith) (omega arith) (omega arith),
          field_kept (entries_at queue i + 8) (omega arith) (omega arith) (omega arith),
        )
        refl

  other_slot :
      (i w : ℕ)
      → get_or (set q.entries pos freed) i unset ≡ live w
      → (pos ≢ i) × (get_or q.entries i unset ≡ live w)
  other_slot i w has =
      let inside : pos < length q.entries = omega (arith, h.width, fits) in
      elim (Bool-cases (pos == i)) [
        | inl e ↦ absurd (freed≢live (rw (get_or-set q.entries pos i freed unset inside, e) at has))
        | inr e ↦
            (==_false_ne pos i e, rw (get_or-set q.entries pos i freed unset inside, e) at has)
      ]
    where
      freed≢live : freed ≡ live w → ⊥
      freed≢live e = cc

  -- The entry of another slot.
  entry_kept :
      (i w : ℕ)
      → i < q.capacity
      → pos ≢ i
      → get_or q.entries i unset ≡ live w
      → after (pointer word queue i).off ≡ word (pointer word queue i).off
  entry_kept i w small other has =
      let off = (pointer word queue i).off in
      let elsewhere : off ≢ front_at queue = elim (h.apart i w small has) [
        | inl p ↦ omega (arith, p)
        | inr p ↦ omega (arith, p)
      ] in
      same off (h.disjoint pos i v w fits small other taken has)
      ∙ rw (ne→==_false off (front_at queue) elsewhere) refl

  pub dequeued-Holds : Holds size objects' after queue (take_front q pos freed)
  dequeued-Holds = record {
    front =
        same queue (h.beside pos v fits taken queue (omega arith) (omega arith))
        ∙ rw ((==_iff queue queue).1 refl) (ap (λ f. (f + 1) % u64_mod) h.front);
    back = field_kept (back_at queue) (omega arith) (omega arith) (omega arith) ∙ h.back;
    capacity = field_kept (queue + 16) (omega arith) (omega arith) (omega arith) ∙ h.capacity;
    width = length-set q.entries pos freed ∙ h.width;
    value = λ i w small has.
        let (other, old) = other_slot i w has in
        subst (λ p. after p.off ≡ w) (pointer_kept i small)
          (entry_kept i w small other old ∙ h.value i w small old);
    apart = λ i w small has.
        subst (λ p. Outside queue q.capacity p.off) (pointer_kept i small)
          (h.apart i w small (other_slot i w has).1);
    allocated = λ i w small has.
        let (other, old) = other_slot i w has in
        subst (λ p. objects' p.off ≡ true) (pointer_kept i small)
          (kept (pointer word queue i).off (h.disjoint pos i v w fits small other taken old)
            (h.allocated i w small old));
    beside = λ i w small has b low high.
        subst (λ p. Clear size p b) (pointer_kept i small)
          (h.beside i w small (other_slot i w has).1 b low high);
    disjoint = λ i j w w' small small' differ has has'.
        subst (λ p. Clear size p (pointer after queue j).off) (pointer_kept i small)
          (subst (λ p. Clear size (pointer word queue i) p.off) (pointer_kept j small')
            (h.disjoint i j w w' small small' differ (other_slot i w has).1
              (other_slot j w' has').1));
  }

-- On memory that holds a queue with a value in the slot, the transaction of `queue_dequeue` does not
-- fault, and frees only what is allocated. It commits if its three calls of libpmemobj succeed, and aborts otherwise; memory then holds
-- the queue that `queue_dequeue` of the record has.
pub dequeue_tx_refines :
    (l : AbortCall) (c : CommitCall) (objects : ℕ → Bool) (word : ℕ → ℕ) (queue : ℕ) (q : Queue)
    (pos v luck : ℕ)
    → Holds c.size objects word queue q
    → pos < q.capacity
    → get_or q.entries pos unset ≡ live v
    → (word' : ℕ → ℕ) × (objects' : ℕ → Bool) × (settled l c objects
          (dequeue_tx queue pos (at_begin word luck))
        ≡ some (leb 3 luck, word', objects'))
      × Holds c.size objects' word' queue (if leb 3 luck then take_front q pos freed else q)
dequeue_tx_refines l c objects word queue q pos v luck h fits taken =
    elim (Bool-cases (leb 3 luck)) [
      | inl enough ↦
          let n = luck - 3 in
          let (m, ran, words, frees) =
            dequeue_tx-words word queue pos n (omega arith) (omega arith) in
          let exact : suc (suc (suc n)) ≡ luck = ground arith in
          let after = c.after_commit m in
          let objects' = without c.size (with_owned objects m) m.freed in
          let same : (b : ℕ)
              → Clear c.size (pointer word queue pos) b
              → after b ≡ dequeued word queue b =
            λ b free. c.keeps m b (rw (frees, free) refl) ∙ rw words refl in
          (
            after,
            objects',
            rw
                (
                  subst (λ k. dequeue_tx queue pos (at_begin word k) ≡ done tt m) exact ran,
                  frees,
                  h.allocated pos v fits taken,
                  enough,
                )
                refl,
            rw enough (
                dequeued-Holds word after queue q pos v c.size objects objects' h fits taken same
                  (λ b clear e. rw (frees, e, clear) refl)),
          )
      | inr few ↦
          let (m, ran, frees, owned) = dequeue_tx_aborts word queue pos luck (ground arith) in
          let back : l.after_abort m ≡ word =
            λ i b. undone_at_call l (dequeue queue pos) word luck m ran b (owned b) i in
          (
            l.after_abort m,
            objects,
            rw (ran, frees, few) refl,
            rw few (subst (λ w. Holds c.size objects w queue q) (sym back) h),
          )
    ]
