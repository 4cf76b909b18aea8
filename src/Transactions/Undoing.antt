-- ===== src/Transactions/Undoing.antt =====
-- src/queue/queue.c and src/map/hashmap_tx.c: the transactions that the undo log of libpmemobj undoes.
use pmem_rts_cache.Common.{
  ◌<◌, ◌&&◌, not, if◌then◌else◌, ◌⊎◌, inl, inr, ℕ, ◌≡◌, ◌∙◌, Bool, true, false, ◌||◌, Option, none,
  some, List, [], ◌∷◌,
}
use pmem_rts_cache.Pmem.{PmemOid}
use pmem_rts_cache.Pmem.Undo.{
  within, Memory, Result, fault, aborted, done, Code, rolled_back_words, Heap, at_begin,
}
use pmem_rts_cache.Pmem.Reading.{Starts, start, Starts-Restores}
use pmem_rts_cache.Queue.Memory.{enqueue_tx, dequeue_tx}
use pmem_rts_cache.Queue.Atomicity.{enqueue_tx-IsUndone, dequeue_tx-IsUndone}
use pmem_rts_cache.Map.Memory.{insert_tx, remove_tx}
use pmem_rts_cache.Map.Atomicity.{insert_tx-Starts, remove_tx-Starts}

-- A transaction of the queue or of the hash map, with the arguments that the code before it gives.
pub data ProgramTx : Type 0 where
  enqueue : Heap → ℕ → ℕ → ℕ → ProgramTx
  dequeue : ℕ → ℕ → ProgramTx
  insert : Heap → PmemOid → ℕ → ℕ → PmemOid → ProgramTx
  remove : PmemOid → ℕ → PmemOid → PmemOid → ProgramTx

abbrev pub code_of : ProgramTx → Code (Unit {0})
code_of (enqueue heap queue pos value) = enqueue_tx heap queue pos value
code_of (dequeue queue pos) = dequeue_tx queue pos
code_of (insert heap hashmap h key value) = insert_tx heap hashmap h key value
code_of (remove hashmap h prev var) = remove_tx hashmap h prev var

code_of-Starts : (word : ℕ → ℕ) (t : ProgramTx) → Starts word (λ _. false) (code_of t)
code_of-Starts word (enqueue heap queue pos value) =
    start word (enqueue_tx-IsUndone word heap queue pos value)
code_of-Starts word (dequeue queue pos) = start word (dequeue_tx-IsUndone word queue pos)
code_of-Starts word (insert heap hashmap h key value) =
    insert_tx-Starts word heap hashmap h key value
code_of-Starts word (remove hashmap h prev var) = remove_tx-Starts word hashmap h prev var

-- What libpmemobj does to the words of the pool when a transaction aborts. It documents that it writes the
-- snapshots back and frees the objects that the transaction allocated, of whose words nothing is said.
pub record AbortCall : Type 0 where
  pub after_abort : Memory → ℕ → ℕ
  pub restores :
      (m : Memory) (b : ℕ) → m.owned b ≡ false → after_abort m b ≡ rolled_back_words m.log m.word b

-- Whether a word is of one of the objects, which have so many words as `size` says.
abbrev pub any_within : (PmemOid → ℕ) → List PmemOid → ℕ → Bool
any_within size [] b = false
any_within size (o ∷ os) b = within (size o) o.off b || any_within size os b

-- What libpmemobj does to the words of the pool when a transaction commits. It documents that it frees
-- the objects of TX_FREE then, of whose words nothing is said.
pub record CommitCall : Type 0 where
  pub size : PmemOid → ℕ
  pub nonempty : (o : PmemOid) → 0 < size o
  pub after_commit : Memory → ℕ → ℕ
  pub keeps : (m : Memory) (b : ℕ) → any_within size m.freed b ≡ false → after_commit m b ≡ m.word b

-- The words of the objects that are left when others are freed.
abbrev pub without : (PmemOid → ℕ) → (ℕ → Bool) → List PmemOid → ℕ → Bool
without size objects os b = objects b && not (any_within size os b)

-- Whether each of the pointers is to an object that is allocated, and that none before it has freed.
abbrev pub frees_allocated : (PmemOid → ℕ) → (ℕ → Bool) → List PmemOid → Bool
frees_allocated size objects [] = true
frees_allocated size objects (o ∷ os) =
    objects o.off && frees_allocated size (λ b. objects b && not (within (size o) o.off b)) os

-- The words of the objects that are allocated within a transaction, which began with others.
abbrev pub with_owned : (ℕ → Bool) → Memory → ℕ → Bool
with_owned objects m b = objects b || m.owned b

-- Whether a transaction commits, the words after it, and which of them are of allocated objects. TX_FREE
-- of what is not allocated is undefined behaviour.
abbrev pub settled :
    AbortCall → CommitCall → (ℕ → Bool) → Result (Unit {0}) → Option (Bool × (ℕ → ℕ) × (ℕ → Bool))
settled l c objects fault = none
settled l c objects (aborted m) =
    if frees_allocated c.size (with_owned objects m) m.freed
    then some (false, l.after_abort m, objects)
    else none
settled l c objects (done _ m) =
    if frees_allocated c.size (with_owned objects m) m.freed
    then some (true, c.after_commit m, without c.size (with_owned objects m) m.freed)
    else none

-- An abort undoes the transactions of `queue_enqueue`, `queue_dequeue`, `hm_tx_insert` and `hm_tx_remove`.
-- If it writes the snapshots back, then whether it comes at one of their calls of libpmemobj or after all
-- of their code, as it does where a transaction around them aborts later, with whatever pool they began,
-- and wherever libpmemobj allocates, every word of the pool that does not belong to an object that they
-- allocated is as it was.
pub transaction-undone :
    (l : AbortCall) (t : ProgramTx) (word : ℕ → ℕ) (luck : ℕ) (m : Memory)
    → (code_of t (at_begin word luck) ≡ aborted m) ⊎ (code_of t (at_begin word luck) ≡ done tt m)
    → (b : ℕ) → m.owned b ≡ false
    → l.after_abort m b ≡ word b
transaction-undone l t word luck m ends b free =
    l.restores m b free
    ∙ Starts-Restores word luck (code_of t) m (code_of-Starts word t)
        (elim ends [ inl e ↦ inl e | inr e ↦ inr (tt, e) ]) b free

-- The same, where it comes at a call.
pub undone_at_call :
    (l : AbortCall) (t : ProgramTx) (word : ℕ → ℕ) (luck : ℕ) (m : Memory)
    → code_of t (at_begin word luck) ≡ aborted m
    → (b : ℕ) → m.owned b ≡ false
    → l.after_abort m b ≡ word b
undone_at_call l t word luck m e = transaction-undone l t word luck m (inl e)
