-- ===== src/Transactions.antt =====
-- src/include/libpmemobj/tx.h: what the macros TX_BEGIN, TX_ONCOMMIT, TX_ONABORT, TX_FINALLY and TX_END
-- make of the code between them. The functions of libpmemobj that they call are parameters.
pub mod Straight
pub mod Undoing
use pmem_rts_cache.Common.{ℕ, zero, suc, Option, none, some, ◌==◌, if◌then◌else◌}

-- `enum pobj_tx_stage`
pub data Stage : Type 0 where
  no_stage work on_commit on_abort finally : Stage

-- What code does to the state `S` of the thread: undefined behaviour, a jump to the `jmp_buf` of the
-- innermost transaction, or it comes to its end.
pub data Ran (A S : Type 0) : Type 0 where
  fault : Ran A S
  jumped : S → Ran A S
  fell : A → S → Ran A S

abbrev pub then_run : {A B S : Type 0} → Ran A S → (A → S → Ran B S) → Ran B S
then_run fault k = fault
then_run (jumped s) k = jumped s
then_run (fell a s) k = k a s

-- The functions of libpmemobj, and `errno`. `tx_begin` and `tx_end` return an error number.
pub record TxCalls (S : Type 0) : Type 0 where
  pub tx_begin : S → Ran ℕ S
  pub tx_stage : S → Stage
  pub tx_process : S → Ran (Unit {0}) S
  pub tx_end : S → Ran ℕ S
  pub tx_errno : S → ℕ
  pub set_errno : ℕ → S → S

-- The code after TX_BEGIN, and after TX_ONCOMMIT, TX_ONABORT and TX_FINALLY where they are there.
pub record Cases (S : Type 0) : Type 0 where
  pub at_work : S → Ran (Unit {0}) S
  pub at_commit : Option (S → Ran (Unit {0}) S)
  pub at_abort : Option (S → Ran (Unit {0}) S)
  pub at_finally : Option (S → Ran (Unit {0}) S)

module _ {S : Type 0} (c : TxCalls S) where
  -- `if (_pobj_errno) errno = _pobj_errno`
  abbrev pub note_errno : ℕ → S → S
  note_errno e s = if e == 0 then s else c.set_errno e s

  -- `errno = pmemobj_tx_errno()`, where `setjmp` returns for the second time.
  abbrev pub rejoin : S → S
  rejoin s = c.set_errno (c.tx_errno s) s

  -- `setjmp` and `pmemobj_tx_begin`. A jump comes back to the `setjmp`.
  abbrev pub entered : Ran ℕ S → Ran (Unit {0}) S
  entered fault = fault
  entered (jumped s) = fell tt (rejoin s)
  entered (fell e s) = fell tt (note_errno e s)

  -- TX_END after its loop. A jump goes to the transaction around this one.
  abbrev pub left : Ran ℕ S → Ran (Unit {0}) S
  left fault = fault
  left (jumped s) = jumped s
  left (fell e s) = fell tt (note_errno e s)

  -- A `case` of the `switch`, or its `default`: the code, and `pmemobj_tx_process`.
  abbrev pub on_case : Option (S → Ran (Unit {0}) S) → S → Ran (Unit {0}) S
  on_case none s = c.tx_process s
  on_case (some code) s = then_run (code s) (λ _. c.tx_process)

  -- The `switch`.
  abbrev pub switch : Cases S → Stage → S → Ran (Unit {0}) S
  switch k no_stage s = c.tx_process s
  switch k work s = then_run (k.at_work s) (λ _. c.tx_process)
  switch k on_commit s = on_case k.at_commit s
  switch k on_abort s = on_case k.at_abort s
  switch k finally s = on_case k.at_finally s

  -- What follows one round of the `while`: the code in `next`, where a jump comes back to the `setjmp`.
  abbrev pub after_round :
      (S → Option (Ran (Unit {0}) S)) → Ran (Unit {0}) S → Option (Ran (Unit {0}) S)
  after_round next fault = some fault
  after_round next (jumped s) = next (rejoin s)
  after_round next (fell _ s) = next s

  abbrev pub at_stage :
      (S → Option (Ran (Unit {0}) S)) → Cases S → Stage → S → Option (Ran (Unit {0}) S)
  at_stage next k no_stage s = some (fell tt s)
  at_stage next k work s = after_round next (switch k work s)
  at_stage next k on_commit s = after_round next (switch k on_commit s)
  at_stage next k on_abort s = after_round next (switch k on_abort s)
  at_stage next k finally s = after_round next (switch k finally s)

  -- The `while`, with `fuel` tests of its condition to go; `none` where they do not suffice.
  unfoldable pub stages : ℕ → Cases S → S → Option (Ran (Unit {0}) S)
  stages zero k s = none
  stages (suc fuel) k s = at_stage (stages fuel k) k (c.tx_stage s) s

  abbrev pub leave : Ran (Unit {0}) S → Ran (Unit {0}) S
  leave r = then_run r (λ _ s. left (c.tx_end s))

  abbrev pub looped : (S → Option (Ran (Unit {0}) S)) → Ran (Unit {0}) S → Option (Ran (Unit {0}) S)
  looped next fault = some fault
  looped next (jumped s) = some (jumped s)
  looped next (fell _ s) = elim (next s) [ none ↦ none | some r ↦ some (leave r) ]

  -- From TX_BEGIN to TX_END.
  unfoldable pub tx_block : ℕ → Cases S → S → Option (Ran (Unit {0}) S)
  unfolding stages
  tx_block fuel k s = looped (stages fuel k) (entered (c.tx_begin s))
