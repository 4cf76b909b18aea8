-- ===== src/Cache/Macros.antt =====
-- src/cache/cache.c: the transactions of the cache, as the macros of src/include/libpmemobj/tx.h run
-- them on functions that do to the pool what libpmemobj documents.
use pmem_rts_cache.Common.{
  ℕ, zero, suc, ◌≡◌, refl, sym, subst, ◌⊎◌, inl, inr, Bool, true, false, Option, none, some, ◌==◌,
  if◌then◌else◌,
}
use pmem_rts_cache.Transactions.{
  Stage, no_stage, work, on_commit, on_abort, finally, Ran, fault, jumped, fell, TxCalls, Cases,
  tx_block, leave, then_run,
}
use pmem_rts_cache.Transactions.Straight.{
  Ends, At, Never, IsStaged, IsPlain, worked, straight, tx_block-straight,
}
use pmem_rts_cache.Cache.Pool as CachePool
use pmem_rts_cache.Cache.Pool.{Pool, Tx, aborted, done, Code, ◌>>◌, call, committed, rolled_back}
use pmem_rts_cache.Cache.Code.{CacheStatus, ok, failed, outcome, transaction}

-- The thread within a transaction: `err` is what aborted it, and `ret` the local variable.
pub record Thread : Type 0 where
  pub pool : Pool
  pub stage : Stage
  pub err : ℕ
  pub errno : ℕ
  pub ret : CacheStatus

-- ECANCELED
abbrev canceled : ℕ
canceled = 125

-- The thread as it comes to TX_BEGIN, with `ret` set to 0.
abbrev pub before : ℕ → Pool → Thread
before errno w = record { pool = w; stage = no_stage; err = 0; errno = errno; ret = ok }

-- What a commit and an abort do to the pool, and whether there is a transaction around this one, which
-- aborts with it.
module _ (commit undo : Pool → Pool) (within : Bool) where
  abbrev pub aborting : Pool → Thread → Thread
  aborting w t = record t { pool = undo w; stage = on_abort; err = canceled }

  abbrev pub begun : ℕ → Thread → Ran ℕ Thread
  begun zero t = fell canceled (aborting t.pool t)
  begun (suc n) t = fell 0 (record t { pool = record t.pool { luck = n }; stage = work; err = 0 })

  abbrev pub processed : Stage → Thread → Ran (Unit {0}) Thread
  processed no_stage t = fell tt t
  processed work t = fell tt (record t { pool = commit t.pool; stage = on_commit })
  processed on_commit t = fell tt (record t { stage = finally })
  processed on_abort t = fell tt (record t { stage = finally })
  processed finally t = fell tt (record t { stage = no_stage })

  abbrev pub ended : Bool → Thread → Ran ℕ Thread
  ended true t = jumped t
  ended false t = fell t.err t

  abbrev pub calls : TxCalls Thread
  calls = record {
    tx_begin = λ t. begun t.pool.luck t;
    tx_stage = λ t. t.stage;
    tx_process = λ t. processed t.stage t;
    tx_end = λ t. ended (if t.err == 0 then false else within) t;
    tx_errno = λ t. t.err;
    set_errno = λ e t. record t { errno = e };
  }

  abbrev pub ran : Thread → Tx (Unit {0}) → Ran (Unit {0}) Thread
  ran t CachePool.fault = fault
  ran t (aborted w) = jumped (aborting w t)
  ran t (done _ w) = fell tt (record t { pool = w })

  -- The transactions of src/cache/cache.c set `ret` in TX_ONABORT, and have no other case.
  abbrev pub cases : Code (Unit {0}) → Cases Thread
  cases body = record {
    at_work = λ t. ran t (body t.pool);
    at_commit = none;
    at_abort = some (λ t. fell tt (record t { ret = failed }));
    at_finally = none;
  }

  begun-Ends :
      (n : ℕ) (t : Thread)
      → Ends (λ t'. At calls work t' ⊎ At calls on_abort t') (At calls on_abort) (begun n t)
  begun-Ends zero t = inr refl
  begun-Ends (suc n) t = inl refl

  processed-Ends :
      (st : Stage) (P J : Thread → Type 0) (t : Thread)
      → t.stage ≡ st
      → Ends P J (processed st t)
      → Ends P J (processed t.stage t)
  processed-Ends st P J t e h = subst (λ x. Ends P J (processed x t)) (sym e) h

  pub calls-IsStaged : IsStaged calls
  calls-IsStaged = record {
    begins = λ t. begun-Ends t.pool.luck t;
    commits = λ t e. processed-Ends work (At calls on_commit) (At calls on_abort) t e refl;
    after_commit = λ t e. processed-Ends on_commit (At calls finally) (Never calls) t e refl;
    after_abort = λ t e. processed-Ends on_abort (At calls finally) (Never calls) t e refl;
    finishes = λ t e. processed-Ends finally (At calls no_stage) (Never calls) t e refl;
    errno_stage = λ e t. refl;
  }

  ran-Ends :
      (t : Thread) (r : Tx (Unit {0}))
      → t.stage ≡ work
      → Ends (At calls work) (At calls on_abort) (ran t r)
  ran-Ends t CachePool.fault e = tt
  ran-Ends t (aborted w) e = refl
  ran-Ends t (done _ w) e = e

  pub cases-IsPlain : (body : Code (Unit {0})) → IsPlain calls (cases body)
  cases-IsPlain body = record {
    work_stays = λ t e. ran-Ends t (body t.pool) e;
    commit_stays = tt;
    abort_stays = λ t e. e;
    finally_stays = tt;
  }

  ran_straight :
      (body : Code (Unit {0})) (t : Thread)
      → tx_block calls 4 (cases body) t ≡ some (straight calls (cases body) t)
  ran_straight body t = tx_block-straight calls calls-IsStaged (cases body) (cases-IsPlain body) t

-- The outermost transaction on the pool that was `old` when it began.
abbrev pub commit_pool : Pool → Pool
commit_pool w = record w { cell = λ at. committed (w.cell at) }

abbrev pub undo_pool : Pool → Pool → Pool
undo_pool old w = record w { cache = old.cache; cell = λ at. rolled_back (w.cell at) }

abbrev pub outer_calls : Pool → TxCalls Thread
outer_calls old = calls commit_pool (undo_pool old) false

-- What the function returns after its block.
abbrev pub returned : Ran (Unit {0}) Thread → Option (CacheStatus × Pool)
returned fault = none
returned (jumped t) = none
returned (fell _ t) = some (t.ret, t.pool)

-- A transaction within another one. The one around it commits, or rolls back.
abbrev pub inner_calls : TxCalls Thread
inner_calls = calls (λ w. w) (λ w. w) true

abbrev pub as_code : Ran (Unit {0}) Thread → Tx (Unit {0})
as_code fault = CachePool.fault
as_code (jumped t) = aborted t.pool
as_code (fell _ t) = done tt t.pool

module _ (body : Code (Unit {0})) (errno : ℕ) where
  outer_worked :
      (old : Pool) (t : Thread) (r : Tx (Unit {0}))
      → t.ret ≡ ok
      → t.err ≡ 0
      → t.stage ≡ work
      → returned (
          leave (outer_calls old) (
            worked (outer_calls old) (cases commit_pool (undo_pool old) false body) (
              then_run
                (ran commit_pool (undo_pool old) false t r)
                (λ _. (outer_calls old).tx_process))))
        ≡ outcome old r
  outer_worked old t CachePool.fault e h st = refl
  outer_worked old t (aborted w) e h st = refl
  outer_worked old t (done _ w) e h st = rw (st, h, e) refl

  outer_straight :
      (luck : ℕ) (old : Pool)
      → returned (
          straight
            (outer_calls old)
            (cases commit_pool (undo_pool old) false body)
            (before errno (record old { luck = luck })))
        ≡ transaction luck body old
  unfolding straight transaction call
  outer_straight zero old = refl
  outer_straight (suc n) old =
      let w = record old { luck = n } in
      outer_worked old (record (before errno w) { stage = work }) (body w) refl refl refl

  inner_worked :
      (t : Thread) (r : Tx (Unit {0}))
      → t.err ≡ 0
      → t.stage ≡ work
      → as_code (
          leave inner_calls (
            worked inner_calls
              (cases (λ w. w) (λ w. w) true body)
              (then_run (ran (λ w. w) (λ w. w) true t r) (λ _. inner_calls.tx_process))))
        ≡ r
  inner_worked t CachePool.fault h st = refl
  inner_worked t (aborted w) h st = refl
  inner_worked t (done _ w) h st = rw (st, h) refl

  inner_straight :
      (luck : ℕ) (w : Pool)
      → as_code (
          straight inner_calls
            (cases (λ w. w) (λ w. w) true body)
            (before errno (record w { luck = luck })))
        ≡ (call >> body) (record w { luck = luck })
  unfolding straight call
  inner_straight zero w = refl
  inner_straight (suc n) w =
      let w' = record w { luck = n } in
      inner_worked (record (before errno w') { stage = work }) (body w') refl refl

  -- Every transaction of the cache is what the macros make of its code. The outermost one ends with
  -- what `transaction` gives; one within another goes on, or jumps to the one around it, as its code
  -- alone would.
  pub transaction-tx_block :
      (luck : ℕ) (old w : Pool)
      → ((r : Ran (Unit {0}) Thread) × (tx_block
              (outer_calls old)
              4
              (cases commit_pool (undo_pool old) false body)
              (before errno (record old { luck = luck }))
            ≡ some r)
          × (returned r ≡ transaction luck body old))
        × ((r : Ran (Unit {0}) Thread) × (tx_block inner_calls 4
                (cases (λ w. w) (λ w. w) true body)
                (before errno w)
              ≡ some r)
            × (as_code r ≡ (call >> body) w))
  transaction-tx_block luck old w = (
    (
      _,
      ran_straight commit_pool (undo_pool old) false body
          (before errno (record old { luck = luck })),
      outer_straight luck old,
    ),
    (_, ran_straight (λ w. w) (λ w. w) true body (before errno w), inner_straight w.luck w),
  )
