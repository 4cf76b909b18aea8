-- ===== src/Transactions/Straight.antt =====
-- src/include/libpmemobj/tx.h: a transaction block runs straight through its stages.
use pmem_rts_cache.Common.{
  ℕ, suc, ◌≡◌, refl, ◌∙◌, ◌⊎◌, inl, inr, Option, none, some, ◌==◌, Bool-cases,
}
use pmem_rts_cache.Transactions.{
  Stage, no_stage, work, on_commit, on_abort, finally, Ran, fault, jumped, fell, then_run, TxCalls,
  Cases, note_errno, rejoin, entered, on_case, switch, after_round, stages, leave, looped, tx_block,
}

-- A property of the states in which code ends, and one of those from which it jumps.
abbrev pub Ends : {A S : Type 0} → (S → Type 0) → (S → Type 0) → Ran A S → Type 0
Ends P J fault = Unit {0}
Ends P J (jumped s) = J s
Ends P J (fell _ s) = P s

module _ {S : Type 0} (c : TxCalls S) where
  abbrev pub At : Stage → S → Type 0
  At st s = c.tx_stage s ≡ st

  abbrev pub Never : S → Type 0
  Never s = ⊥

  -- What src/include/libpmemobj/tx_base.h says of the functions: each goes to the next stage, and
  -- whatever goes to TX_STAGE_ONABORT is followed by a jump, but for a `pmemobj_tx_begin` that returns.
  pub record IsStaged : Type 0 where
    pub begins : (s : S) → Ends (λ s'. At work s' ⊎ At on_abort s') (At on_abort) (c.tx_begin s)
    pub commits : (s : S) → At work s → Ends (At on_commit) (At on_abort) (c.tx_process s)
    pub after_commit : (s : S) → At on_commit s → Ends (At finally) Never (c.tx_process s)
    pub after_abort : (s : S) → At on_abort s → Ends (At finally) Never (c.tx_process s)
    pub finishes : (s : S) → At finally s → Ends (At no_stage) Never (c.tx_process s)
    pub errno_stage : (e : ℕ) (s : S) → c.tx_stage (c.set_errno e s) ≡ c.tx_stage s

  -- The code between the macros changes no stage, but for an abort of the work.
  abbrev pub Stays : Stage → Option (S → Ran (Unit {0}) S) → Type 0
  Stays st none = Unit {0}
  Stays st (some code) = (s : S) → At st s → Ends (At st) Never (code s)

  pub record IsPlain (k : Cases S) : Type 0 where
    pub work_stays : (s : S) → At work s → Ends (At work) (At on_abort) (k.at_work s)
    pub commit_stays : Stays on_commit k.at_commit
    pub abort_stays : Stays on_abort k.at_abort
    pub finally_stays : Stays finally k.at_finally

  -- The block without its loop: the work, then the code of TX_ONCOMMIT or, after an abort, that of
  -- TX_ONABORT, each once and never both, then that of TX_FINALLY and the end.
  abbrev pub ending : Cases S → Ran (Unit {0}) S → Ran (Unit {0}) S
  ending k r = then_run r (λ _. on_case c k.at_finally)

  abbrev pub worked : Cases S → Ran (Unit {0}) S → Ran (Unit {0}) S
  worked k fault = fault
  worked k (jumped s) = ending k (on_case c k.at_abort (rejoin c s))
  worked k (fell _ s) = ending k (on_case c k.at_commit s)

  abbrev pub started : Cases S → Stage → S → Ran (Unit {0}) S
  started k no_stage s = fell tt s
  started k work s = worked k (switch c k work s)
  started k on_commit s = ending k (on_case c k.at_commit s)
  started k on_abort s = ending k (on_case c k.at_abort s)
  started k finally s = on_case c k.at_finally s

  unfoldable pub straight : Cases S → S → Ran (Unit {0}) S
  straight k s =
      then_run (entered c (c.tx_begin s)) (λ _ s'. leave c (started k (c.tx_stage s') s'))

  module _ (l : IsStaged) (k : Cases S) (p : IsPlain k) where
    then-Ends :
        (P Q : S → Type 0) (r : Ran (Unit {0}) S) (f : S → Ran (Unit {0}) S)
        → Ends P Never r
        → ((s : S) → P s → Ends Q Never (f s))
        → Ends Q Never (then_run r (λ _. f))
    then-Ends P Q fault f e h = tt
    then-Ends P Q (jumped s) f e h = e
    then-Ends P Q (fell _ s) f e h = h s e

    on_case-Ends :
        (st st' : Stage) (o : Option (S → Ran (Unit {0}) S))
        → Stays st o
        → ((s : S) → At st s → Ends (At st') Never (c.tx_process s))
        → (s : S) → At st s
        → Ends (At st') Never (on_case c o s)
    on_case-Ends st st' none q h s e = h s e
    on_case-Ends st st' (some code) q h s e =
        then-Ends (At st) (At st') (code s) c.tx_process (q s e) h

    -- The loop at TX_STAGE_NONE, and one round before it.
    no_stage_ends : (n : ℕ) (s : S) → At no_stage s → stages c (suc n) k s ≡ some (fell tt s)
    unfolding stages
    no_stage_ends n s e = rw e refl

    round_to_none :
        (n : ℕ) (r : Ran (Unit {0}) S)
        → Ends (At no_stage) Never r
        → after_round c (stages c (suc n) k) r ≡ some r
    round_to_none n fault e = refl
    round_to_none n (jumped s) e = absurd e
    round_to_none n (fell _ s) e = no_stage_ends n s e

    finally_ends :
        (n : ℕ) (s : S)
        → At finally s
        → stages c (suc (suc n)) k s ≡ some (on_case c k.at_finally s)
    unfolding stages
    finally_ends n s e = rw e (
        round_to_none n (on_case c k.at_finally s)
          (on_case-Ends finally no_stage k.at_finally p.finally_stays l.finishes s e))

    round_to_finally :
        (n : ℕ) (r : Ran (Unit {0}) S)
        → Ends (At finally) Never r
        → after_round c (stages c (suc (suc n)) k) r ≡ some (ending k r)
    round_to_finally n fault e = refl
    round_to_finally n (jumped s) e = absurd e
    round_to_finally n (fell _ s) e = finally_ends n s e

    on_commit_ends :
        (n : ℕ) (s : S)
        → At on_commit s
        → stages c (suc (suc (suc n))) k s ≡ some (ending k (on_case c k.at_commit s))
    unfolding stages
    on_commit_ends n s e = rw e (
        round_to_finally n (on_case c k.at_commit s)
          (on_case-Ends on_commit finally k.at_commit p.commit_stays l.after_commit s e))

    on_abort_ends :
        (n : ℕ) (s : S)
        → At on_abort s
        → stages c (suc (suc (suc n))) k s ≡ some (ending k (on_case c k.at_abort s))
    unfolding stages
    on_abort_ends n s e = rw e (
        round_to_finally n (on_case c k.at_abort s)
          (on_case-Ends on_abort finally k.at_abort p.abort_stays l.after_abort s e))

    work-Ends :
        (r : Ran (Unit {0}) S)
        → Ends (At work) (At on_abort) r
        → Ends (At on_commit) (At on_abort) (then_run r (λ _. c.tx_process))
    work-Ends fault e = tt
    work-Ends (jumped s) e = e
    work-Ends (fell _ s) e = l.commits s e

    round_of_work :
        (n : ℕ) (r : Ran (Unit {0}) S)
        → Ends (At on_commit) (At on_abort) r
        → after_round c (stages c (suc (suc (suc n))) k) r ≡ some (worked k r)
    round_of_work n fault e = refl
    round_of_work n (jumped s) e = on_abort_ends n (rejoin c s) (l.errno_stage (c.tx_errno s) s ∙ e)
    round_of_work n (fell _ s) e = on_commit_ends n s e

    work_ends :
        (n : ℕ) (s : S)
        → At work s
        → stages c (suc (suc (suc (suc n)))) k s ≡ some (worked k (switch c k work s))
    unfolding stages
    work_ends n s e =
        rw e (round_of_work n (switch c k work s) (work-Ends (k.at_work s) (p.work_stays s e)))

    started_lem :
        (s : S) → At work s ⊎ At on_abort s → stages c 4 k s ≡ some (started k (c.tx_stage s) s)
    started_lem s (inl e) = work_ends 0 s e ∙ rw e refl
    started_lem s (inr e) = on_abort_ends 1 s e ∙ rw e refl

    note_errno_stage : (e : ℕ) (s : S) → c.tx_stage (note_errno c e s) ≡ c.tx_stage s
    note_errno_stage e s = elim (Bool-cases (e == 0)) [
      | inl q ↦ rw q refl
      | inr q ↦ rw q (l.errno_stage e s)
    ]

    entered_lem :
        (r : Ran ℕ S)
        → Ends (λ s'. At work s' ⊎ At on_abort s') (At on_abort) r
        → looped c (stages c 4 k) (entered c r)
          ≡ some (then_run (entered c r) (λ _ s'. leave c (started k (c.tx_stage s') s')))
    entered_lem fault e = refl
    entered_lem (jumped s) e =
        rw (looped, started_lem (rejoin c s) (inr (l.errno_stage (c.tx_errno s) s ∙ e))) refl
    entered_lem (fell n s) (inl e) =
        rw (looped, started_lem (note_errno c n s) (inl (note_errno_stage n s ∙ e))) refl
    entered_lem (fell n s) (inr e) =
        rw (looped, started_lem (note_errno c n s) (inr (note_errno_stage n s ∙ e))) refl

    -- On functions that go through the stages as documented, and code that leaves the stages to them, a
    -- transaction block ends after at most four tests of its loop. It does what it does without a loop:
    -- the work; then the code of TX_ONCOMMIT where it commits, or the code of TX_ONABORT where it
    -- aborts or could not begin, once and never both; then the code of TX_FINALLY.
    pub tx_block-straight : (s : S) → tx_block c 4 k s ≡ some (straight k s)
    unfolding tx_block straight
    tx_block-straight s = entered_lem (c.tx_begin s) (l.begins s)
