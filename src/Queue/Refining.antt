-- ===== src/Queue/Refining.antt =====
-- src/queue/queue.c: the transaction of `queue_enqueue` on memory, against `queue_enqueue` of the record.
use pmem_rts_cache.Common.{
  true, false, Bool, [], ==_self, ◌||◌, ◌&&◌, not, ℕ, zero, suc, ◌+◌, ◌-◌, ◌*◌, ◌≤◌, ◌<◌, ◌≡◌, ◌≢◌,
  refl, sym, ◌∙◌, subst, false, some, leb, if◌then◌else◌, inl, inr, ne→==_false, Bool-cases, arith,
}
use pmem_rts_cache.Pmem.{PmemOid, oid_is_null}
use pmem_rts_cache.Pmem.Undo.{
  Memory, aborted, done, tx_call, deref, peek, poke, poke_oid, tx_add, Heap, tx_alloc, at_begin,
}
use pmem_rts_cache.Transactions.Undoing.{
  AbortCall, CommitCall, settled, without, with_owned, enqueue, undone_at_call,
}
use pmem_rts_cache.Queue.{Queue, put}
use pmem_rts_cache.Queue.Memory.{entries_at, enqueue_tx}
use pmem_rts_cache.Queue.Held.{Outside, pointer, Clear, Holds, IsFree}
use pmem_rts_cache.Queue.Committing.{at_new, end_of, enqueue_tx-words, enqueued-Holds}

-- What is allocated, or was already.
either : (b : Bool) → (b || (true || false)) && not false ≡ true
either b = ground arith

enqueue_tx_commits :
    (c : CommitCall) (objects : ℕ → Bool) (heap : Heap) (word : ℕ → ℕ) (queue : ℕ) (q : Queue)
    (pos value luck : ℕ)
    → 4 ≤ luck
    → Holds c.size objects word queue q
    → pos < q.capacity
    → ((n : ℕ) → IsFree c.size word queue q (heap.place (at_new word queue n) 1))
    → (m : Memory) × (enqueue_tx heap queue pos value (at_begin word luck) ≡ done tt m)
      × (m.freed ≡ [])
      × Holds c.size
          (without c.size (with_owned objects m) m.freed)
          (c.after_commit m)
          queue
          (put q pos value)
enqueue_tx_commits c objects heap word queue q pos value luck enough h fits free =
    let n = luck - 4 in
    let f = free (suc n) in
    let o = heap.place (at_new word queue (suc n)) 1 in
    let (m, ran, words, frees, owned) = enqueue_tx-words heap word queue pos value n f.there in
    let exact : suc (suc (suc (suc n))) ≡ luck = omega (arith, enough) in
    let same : c.after_commit m ≡ m.word = λ i b. c.keeps m b (rw frees refl) i in
    let objects' = without c.size (with_owned objects m) m.freed in
    (
      m,
      subst (λ k. enqueue_tx heap queue pos value (at_begin word k) ≡ done tt m) exact ran,
      frees,
      subst (λ w. Holds c.size objects' w queue (put q pos value)) (sym (same ∙ words))
          (enqueued-Holds word queue q pos value o heap.unset c.size objects objects' h f fits
            (λ b e. rw (frees, e) refl)
            (rw (frees, owned o.off, ==_self o.off) (either (objects o.off)))),
    )

-- The transaction that aborts has allocated the new entry at most.
enqueue_tx_aborts :
    (heap : Heap) (word : ℕ → ℕ) (queue pos value luck : ℕ)
    → luck < 4
    → oid_is_null (heap.place (at_new word queue 0) 1) ≡ false
    → (m : Memory) × (enqueue_tx heap queue pos value (at_begin word luck) ≡ aborted m)
      × (m.freed ≡ [])
      × ((b : ℕ) → b ≢ (heap.place (at_new word queue 0) 1).off → m.owned b ≡ false)
unfolding enqueue_tx tx_call tx_add peek poke tx_alloc deref poke_oid
enqueue_tx_aborts heap word queue pos value zero few there =
    (end_of (enqueue_tx heap queue pos value (at_begin word 0)), refl, refl, λ b other. refl)
enqueue_tx_aborts heap word queue pos value (suc zero) few there =
    (end_of (enqueue_tx heap queue pos value (at_begin word 1)), refl, refl, λ b other. refl)
enqueue_tx_aborts heap word queue pos value (suc (suc zero)) few there =
    (end_of (enqueue_tx heap queue pos value (at_begin word 2)), refl, refl, λ b other. refl)
enqueue_tx_aborts heap word queue pos value (suc (suc (suc zero))) few there = (
  end_of (enqueue_tx heap queue pos value (at_begin word 3)),
  rw there refl,
  rw there refl,
  λ b other. rw (there, ne→==_false b (heap.place (at_new word queue 0) 1).off other) refl,
)
enqueue_tx_aborts heap word queue pos value (suc (suc (suc (suc luck)))) few there =
    absurd (omega arith)

-- Memory holds the queue where the words of the queue and of its entries are the same.
restored-Holds :
    (size : PmemOid → ℕ) (objects : ℕ → Bool) (word word' : ℕ → ℕ) (queue : ℕ) (q : Queue)
    (o : PmemOid)
    → Holds size objects word queue q
    → IsFree size word queue q o
    → ((b : ℕ) → b ≢ o.off → word' b ≡ word b)
    → Holds size objects word' queue q
restored-Holds size objects word word' queue q o h f same =
    let kept : (b : ℕ) → queue ≤ b → b < queue + 24 + 16 * q.capacity → word' b ≡ word b =
      λ b low high. same b (elim f.apart [ inl p ↦ omega (arith, p) | inr p ↦ omega (arith, p) ]) in
    let back : (i : ℕ) → i < q.capacity → pointer word queue i ≡ pointer word' queue i = λ i small.
      rw
        (
          kept (entries_at queue i) (omega arith) (omega arith),
          kept (entries_at queue i + 8) (omega arith) (omega arith),
        )
        refl in
    record {
      front = kept queue (omega arith) (omega arith) ∙ h.front;
      back = kept (queue + 8) (omega arith) (omega arith) ∙ h.back;
      capacity = kept (queue + 16) (omega arith) (omega arith) ∙ h.capacity;
      width = h.width;
      value = λ i v small has.
          subst (λ p. word' p.off ≡ v) (back i small)
            (same (pointer word queue i).off (λ e. f.unused i v small has (sym e))
              ∙ h.value i v small has);
      apart = λ i v small has.
          subst (λ p. Outside queue q.capacity p.off) (back i small) (h.apart i v small has);
      allocated = λ i v small has.
          subst (λ p. objects p.off ≡ true) (back i small) (h.allocated i v small has);
      beside = λ i v small has b low high.
          subst (λ p. Clear size p b) (back i small) (h.beside i v small has b low high);
      disjoint = λ i j v w small small' differ has has'.
          subst (λ p. Clear size p (pointer word' queue j).off) (back i small)
            (subst (λ p. Clear size (pointer word queue i) p.off) (back j small')
              (h.disjoint i j v w small small' differ has has'));
    }

-- On memory that holds a queue, with an allocator that gives it places that nothing of the queue uses and
-- an abort that writes the snapshots back, the transaction of `queue_enqueue` does not
-- fault, and frees only what is allocated. It commits if its four calls of libpmemobj succeed, and aborts otherwise; memory then holds
-- the queue that `queue_enqueue` of the record has after a transaction that commits or does not.
pub enqueue_tx_refines :
    (l : AbortCall) (c : CommitCall) (objects : ℕ → Bool) (heap : Heap) (word : ℕ → ℕ) (queue : ℕ)
    (q : Queue) (pos value luck : ℕ)
    → Holds c.size objects word queue q
    → pos < q.capacity
    → ((n : ℕ) → IsFree c.size word queue q (heap.place (at_new word queue n) 1))
    → (word' : ℕ → ℕ) × (objects' : ℕ → Bool) × (settled l c objects
          (enqueue_tx heap queue pos value (at_begin word luck))
        ≡ some (leb 4 luck, word', objects'))
      × Holds c.size objects' word' queue (if leb 4 luck then put q pos value else q)
enqueue_tx_refines l c objects heap word queue q pos value luck h fits free =
    elim (Bool-cases (leb 4 luck)) [
      | inl enough ↦
          let (m, ran, frees, after) =
            enqueue_tx_commits c objects heap word queue q pos value luck (ground arith) h fits
              free in
          (
            c.after_commit m,
            without c.size (with_owned objects m) m.freed,
            rw (ran, frees, enough) refl,
            rw enough after,
          )
      | inr few ↦
          let f = free 0 in
          let (m, ran, frees, owned) =
            enqueue_tx_aborts heap word queue pos value luck (ground arith) f.there in
          let back : (b : ℕ)
              → b ≢ (heap.place (at_new word queue 0) 1).off
              → l.after_abort m b ≡ word b =
            λ b other.
              undone_at_call l (enqueue heap queue pos value) word luck m ran b (owned b other) in
          (
            l.after_abort m,
            objects,
            rw (ran, frees, few) refl,
            rw few (
                restored-Holds c.size objects word (l.after_abort m) queue q
                  (heap.place (at_new word queue 0) 1) h f back),
          )
    ]
