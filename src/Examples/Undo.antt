-- ===== src/Examples/Undo.antt =====
-- Transactions that abort: `queue_enqueue` at its TX_NEW, and `cache_delete` at its TX_FREE.
use pmem_rts_cache.Common.{inl, ℕ, ◌≡◌, refl, ◌==◌, if◌then◌else◌}
use pmem_rts_cache.Pmem.Undo.{
  Memory, Result, fault, done, aborted, peek, poke, tx_call, tx_add, tx_alloc, rolled_back_words,
  Heap, at_begin,
}
use pmem_rts_cache.Queue.Memory.{enqueue_tx}
use pmem_rts_cache.Transactions.Undoing.{ProgramTx, AbortCall, enqueue, code_of, transaction-undone}

-- A queue at 1000 with `front` 2, `back` 5 and `capacity` 4.
abbrev queue_words : ℕ → ℕ
queue_words at = if at == 1000 then 2 else if at == 1008 then 5 else if at == 1016 then 4 else 0

abbrev pub heap : Heap
heap = record { place = λ m n. record { pool_uuid_lo = 7; off = 4096 }; unset = λ b. 0 }

abbrev enqueued : ProgramTx
enqueued = enqueue heap 1000 1 77

-- The memory of a transaction that aborts.
abbrev at_abort : Memory → Result (Unit {0}) → Memory
at_abort m fault = m
at_abort m (aborted m') = m'
at_abort m (done _ _) = m

abbrev half_done : Memory
half_done = at_abort (at_begin queue_words 2) (code_of enqueued (at_begin queue_words 2))

aborts_at_new : code_of enqueued (at_begin queue_words 2) ≡ aborted half_done
unfolding enqueue_tx tx_call tx_add peek poke tx_alloc
aborts_at_new = refl

counted_already : half_done.word 1008 ≡ 6
unfolding enqueue_tx tx_call tx_add peek poke tx_alloc
counted_already = refl

abbrev pub libpmemobj : AbortCall
libpmemobj = record {
  after_abort = λ m. rolled_back_words m.log m.word;
  restores = λ m b free. refl;
}

transaction-undone_example : libpmemobj.after_abort half_done 1008 ≡ 5
unfolding aborts_at_new
transaction-undone_example =
    transaction-undone libpmemobj enqueued queue_words 2 half_done (inl aborts_at_new) 1008 refl
