-- ===== src/Queue/Committing.antt =====
-- src/queue/queue.c: what the transactions of the queue do to memory, against the queue as a record.
use pmem_rts_cache.Common.{
  true, ◌||◌, Bool, ℕ, suc, ◌+◌, ◌*◌, ◌%◌, ◌≤◌, ◌<◌, ◌≡◌, ◌≢◌, refl, sym, ◌∙◌, ap, subst, false, [],
  ◌∷◌, ◌==◌, ne→==_false, if◌then◌else◌, get_or, get_or-set, set, length-set, inl, inr, Bool-cases,
  ==_iff, ==_false_ne, arith,
}
use pmem_rts_cache.Pmem.{PmemOid, oid_is_null, u64_mod}
use pmem_rts_cache.Pmem.Undo.{
  within, Memory, put_word, Result, fault, aborted, done, tx_call, deref, word_at, peek, poke,
  poke_oid, tx_add, Heap, tx_alloc, at_begin,
}
use pmem_rts_cache.Queue.{unset, live, Queue, put}
use pmem_rts_cache.Queue.Held.{Outside, pointer, Clear, Holds, IsFree}
use pmem_rts_cache.Queue.Memory.{back_at, entries_at, enqueue_tx}

module _ (word : ℕ → ℕ) (queue pos value : ℕ) (o : PmemOid) (fill : ℕ → ℕ) where
  -- The words after the transaction of `queue_enqueue`.
  abbrev pub enqueued : ℕ → ℕ
  enqueued =
      let w1 = put_word word (back_at queue) ((word (back_at queue) + 1) % u64_mod) in
      let w2 : ℕ → ℕ = λ b. if within 1 o.off b then fill b else w1 b in
      let w3 = put_word w2 (word_at o 0) value in
      let w4 = put_word w3 (entries_at queue pos) o.pool_uuid_lo in
      put_word w4 (entries_at queue pos + 8) o.off

  enqueued-other :
      (b : ℕ)
      → b ≢ back_at queue
      → b ≢ o.off
      → b ≢ entries_at queue pos
      → b ≢ entries_at queue pos + 8
      → enqueued b ≡ word b
  enqueued-other b nb np ns ns' = ground arith

  enqueued-back :
      back_at queue ≢ o.off → enqueued (back_at queue) ≡ (word (back_at queue) + 1) % u64_mod
  enqueued-back np = ground arith

  enqueued-pointer : pointer enqueued queue pos ≡ o
  enqueued-pointer =
      let uuid : enqueued (entries_at queue pos) ≡ o.pool_uuid_lo = ground arith in
      let off : enqueued (entries_at queue pos + 8) ≡ o.off = ground arith in rw (uuid, off) refl

  enqueued-value :
      o.off ≢ entries_at queue pos → o.off ≢ entries_at queue pos + 8 → enqueued o.off ≡ value
  enqueued-value ns ns' = ground arith

-- The memory as `queue_enqueue` comes to its TX_NEW.
abbrev pub at_new : (ℕ → ℕ) → ℕ → ℕ → Memory
at_new word queue n = record {
  word = put_word word (back_at queue) ((word (back_at queue) + 1) % u64_mod);
  owned = λ b. false;
  log = (back_at queue, word (back_at queue)) ∷ [];
  freed = [];
  luck = n;
}

-- The memory where a transaction has come to its end.
abbrev pub end_of : Result (Unit {0}) → Memory
end_of fault = at_begin (λ b. 0) 0
end_of (aborted m) = m
end_of (done _ m) = m

pub enqueue_tx-words :
    (heap : Heap) (word : ℕ → ℕ) (queue pos value n : ℕ)
    → oid_is_null (heap.place (at_new word queue (suc n)) 1) ≡ false
    → (m : Memory) × (enqueue_tx heap queue pos value (at_begin word (suc (suc (suc (suc n)))))
        ≡ done tt m)
      × (m.word
          ≡ enqueued word queue pos value (heap.place (at_new word queue (suc n)) 1) heap.unset)
      × (m.freed ≡ [])
      × ((b : ℕ) → m.owned b ≡ within 1 (heap.place (at_new word queue (suc n)) 1).off b || false)
unfolding enqueue_tx tx_call tx_add peek poke tx_alloc deref poke_oid
enqueue_tx-words heap word queue pos value n there = (
  end_of (enqueue_tx heap queue pos value (at_begin word (suc (suc (suc (suc n)))))),
  rw there refl,
  rw there refl,
  rw there refl,
  λ b. rw there refl,
)

live-inj : {v w : ℕ} → live v ≡ live w → v ≡ w
live-inj e = cc

module _ (word : ℕ → ℕ) (queue : ℕ) (q : Queue) (pos value : ℕ) (o : PmemOid) (fill : ℕ → ℕ)
    (size : PmemOid → ℕ) (objects objects' : ℕ → Bool) (h : Holds size objects word queue q)
    (f : IsFree size word queue q o) (fits : pos < q.capacity)
    (kept : (b : ℕ) → objects b ≡ true → objects' b ≡ true) (new : objects' o.off ≡ true) where
  abbrev after : ℕ → ℕ
  after = enqueued word queue pos value o fill

  -- A word of the queue that is not written to.
  field_kept :
      (b : ℕ)
      → queue ≤ b
      → b < queue + 24 + 16 * q.capacity
      → b ≢ back_at queue
      → b ≢ entries_at queue pos
      → b ≢ entries_at queue pos + 8
      → after b ≡ word b
  field_kept b low high nb ns ns' =
      enqueued-other word queue pos value o fill b nb
        (elim f.apart [ inl p ↦ omega (arith, p) | inr p ↦ omega (arith, p) ]) ns ns'

  pointer_kept : (i : ℕ) → i < q.capacity → pos ≢ i → pointer after queue i ≡ pointer word queue i
  pointer_kept i small other =
      let uuid =
        field_kept (entries_at queue i) (omega arith) (omega arith) (omega arith)
          (omega (arith, other)) (omega (arith, other)) in
      let off =
        field_kept (entries_at queue i + 8) (omega arith) (omega arith) (omega arith)
          (omega (arith, other)) (omega (arith, other)) in
      rw (uuid, off) refl

  -- The entry of another slot.
  entry_kept :
      (i v : ℕ)
      → i < q.capacity
      → get_or q.entries i unset ≡ live v
      → after (pointer word queue i).off ≡ word (pointer word queue i).off
  entry_kept i v small has =
      let off = (pointer word queue i).off in
      let unused : off ≢ o.off = λ e. f.unused i v small has (sym e) in
      elim (h.apart i v small has) [
        | inl p ↦
            enqueued-other word queue pos value o fill off (omega (arith, p)) unused
              (omega (arith, p)) (omega (arith, p))
        | inr p ↦
            enqueued-other word queue pos value o fill off (omega (arith, p)) unused
              (omega (arith, p, fits)) (omega (arith, p, fits))
      ]

  other_slot :
      (i v : ℕ)
      → pos ≢ i
      → get_or (set q.entries pos (live value)) i unset ≡ live v
      → get_or q.entries i unset ≡ live v
  other_slot i v other has =
      rw
        (
          get_or-set q.entries pos i (live value) unset (omega (arith, h.width, fits)),
          ne→==_false pos i other,
        )
        at has

  same_slot :
      (i v : ℕ) → pos ≡ i → get_or (set q.entries pos (live value)) i unset ≡ live v → value ≡ v
  same_slot i v same has = live-inj (
      rw
        (
          get_or-set q.entries pos i (live value) unset (omega (arith, h.width, fits)),
          (==_iff pos i).1 same,
        )
        at has)

  new_pointer : (i : ℕ) → pos ≡ i → pointer after queue i ≡ o
  new_pointer i same =
      subst (λ k. pointer after queue k ≡ o) same (enqueued-pointer word queue pos value o fill)

  new_value : after o.off ≡ value
  new_value = elim f.apart [
    | inl p ↦ enqueued-value word queue pos value o fill (omega (arith, p)) (omega (arith, p))
    | inr p ↦
        enqueued-value word queue pos value o fill (omega (arith, p, fits)) (omega (arith, p, fits))
  ]

  -- What holds of the pointer of a slot with a value, old or new.
  of_pointer :
      (P : PmemOid → Type 0) (i v : ℕ)
      → i < q.capacity
      → get_or (set q.entries pos (live value)) i unset ≡ live v
      → (pos ≡ i → P o)
      → (pos ≢ i → get_or q.entries i unset ≡ live v → P (pointer word queue i))
      → P (pointer after queue i)
  of_pointer P i v small has of_new of_old = elim (Bool-cases (pos == i)) [
    | inl e ↦ let same = (==_iff pos i).0 e in subst P (sym (new_pointer i same)) (of_new same)
    | inr e ↦
        let other = ==_false_ne pos i e in
        subst P (sym (pointer_kept i small other)) (of_old other (other_slot i v other has))
  ]

  pub enqueued-Holds : Holds size objects' after queue (put q pos value)
  enqueued-Holds = record {
    front =
        field_kept queue (omega arith) (omega arith) (omega arith) (omega arith) (omega arith)
        ∙ h.front;
    back =
        enqueued-back word queue pos value o fill
          (elim f.apart [ inl p ↦ omega (arith, p) | inr p ↦ omega (arith, p) ])
        ∙ ap (λ b. (b + 1) % u64_mod) h.back;
    capacity =
        field_kept (queue + 16) (omega arith) (omega arith) (omega arith) (omega arith)
          (omega arith)
        ∙ h.capacity;
    width = length-set q.entries pos (live value) ∙ h.width;
    value = λ i v small has.
        of_pointer (λ p. after p.off ≡ v) i v small has (λ same. new_value ∙ same_slot i v same has)
          (λ other old. entry_kept i v small old ∙ h.value i v small old);
    apart = λ i v small has.
        of_pointer (λ p. Outside queue q.capacity p.off) i v small has (λ same. f.apart)
          (λ other old. h.apart i v small old);
    allocated = λ i v small has.
        of_pointer (λ p. objects' p.off ≡ true) i v small has (λ same. new)
          (λ other old. kept (pointer word queue i).off (h.allocated i v small old));
    beside = λ i v small has b low high.
        of_pointer (λ p. Clear size p b) i v small has (λ same. f.beside b low high)
          (λ other old. h.beside i v small old b low high);
    disjoint = λ i j v w small small' differ has has'.
        of_pointer (λ p. Clear size p (pointer after queue j).off) i v small has
          (λ same.
            of_pointer (λ p. Clear size o p.off) j w small' has'
              (λ same'. absurd (differ (sym same ∙ same'))) (λ other old. f.clear j w small' old))
          (λ other old.
            of_pointer (λ p. Clear size (pointer word queue i) p.off) j w small' has'
              (λ same'. f.cleared i v small old)
              (λ other' old'. h.disjoint i j v w small small' differ old old'));
  }
