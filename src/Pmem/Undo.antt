-- ===== src/Pmem/Undo.antt =====
-- src/include/libpmemobj/tx.h and types.h, as the transactions of the program use them on words of memory,
-- and what libpmemobj keeps of these: snapshots of the ranges that TX_ADD names. Memory is words of 8 octets at their offsets in the pool.
use pmem_rts_cache.Common.{
  ℕ, zero, suc, ◌+◌, ◌*◌, Bool, false, ◌||◌, List, [], ◌∷◌, ◌==◌, if◌then◌else◌,
}
use pmem_rts_cache.Pmem.{PmemOid, oid_is_null}

-- Whether `at` is one of the `n` words from `from` on.
abbrev pub within : ℕ → ℕ → ℕ → Bool
within zero from at = false
within (suc n) from at = at == from || within n (from + 8) at

-- The words, those of them that the transaction has allocated, its snapshots with the last one first,
-- what it frees when it commits, and how many calls of libpmemobj succeed before one fails.
pub record Memory : Type 0 where
  pub word : ℕ → ℕ
  pub owned : ℕ → Bool
  pub log : List (ℕ × ℕ)
  pub freed : List PmemOid
  pub luck : ℕ

abbrev pub put_word : (ℕ → ℕ) → ℕ → ℕ → ℕ → ℕ
put_word word at v b = if b == at then v else word b

-- Code within a transaction: undefined behaviour, an abort, or it comes to its end.
pub data Result (A : Type 0) : Type 0 where
  fault : Result A
  aborted : Memory → Result A
  done : A → Memory → Result A

abbrev pub Code : Type 0 → Type 0
Code A = Memory → Result A

abbrev pub pure : {A : Type 0} → A → Code A
pure a m = done a m

abbrev pub and_then : {A B : Type 0} → Result A → (A → Code B) → Result B
and_then fault k = fault
and_then (aborted m) k = aborted m
and_then (done a m) k = k a m

infixl 5 ◌>>=◌ ◌>>◌
abbrev pub ◌>>=◌ : {A B : Type 0} → Code A → (A → Code B) → Code B
◌>>=◌ c k m = and_then (c m) k

abbrev pub ◌>>◌ : {B : Type 0} → Code (Unit {0}) → Code B → Code B
c >> d = c >>= λ _. d

-- A call of libpmemobj that may fail, which aborts the transaction.
unfoldable pub tx_call : Code (Unit {0})
tx_call m = elim m.luck [ zero ↦ aborted m | suc n ↦ done tt (record m { luck = n }) ]

-- D_RO and D_RW of a pointer that must not be null, and the offset of the word `k` of its object.
unfoldable pub deref : PmemOid → Code (Unit {0})
deref o m = if oid_is_null o then fault else done tt m

abbrev pub word_at : PmemOid → ℕ → ℕ
word_at o k = o.off + 8 * k

unfoldable pub peek : ℕ → Code ℕ
peek at m = done (m.word at) m

unfoldable pub poke : ℕ → ℕ → Code (Unit {0})
poke at v m = done tt (record m { word = put_word m.word at v })

-- A persistent pointer is two words.
unfoldable pub peek_oid : ℕ → Code PmemOid
unfolding peek
peek_oid at = do
  uuid ← peek at
  off ← peek (at + 8)
  pure (record { pool_uuid_lo = uuid; off = off })

unfoldable pub poke_oid : ℕ → PmemOid → Code (Unit {0})
unfolding poke
poke_oid at o = poke at o.pool_uuid_lo >> poke (at + 8) o.off

-- The snapshots of `n` words from `from` on, in front of others.
abbrev pub snapshots : (ℕ → ℕ) → ℕ → ℕ → List (ℕ × ℕ) → List (ℕ × ℕ)
snapshots word zero from log = log
snapshots word (suc n) from log = snapshots word n (from + 8) ((from, word from) ∷ log)

-- TX_ADD_DIRECT and TX_ADD_FIELD, of `n` words.
unfoldable pub tx_add : ℕ → ℕ → Code (Unit {0})
unfolding tx_call
tx_add from n = tx_call >> λ m. done tt (record m { log = snapshots m.word n from m.log })

-- What libpmemobj decides: where an object of `n` words goes, and what TX_ALLOC leaves in it.
pub record Heap : Type 0 where
  pub place : Memory → ℕ → PmemOid
  pub unset : ℕ → ℕ

-- TX_NEW and TX_ALLOC of `n` words that hold what `fill` says.
unfoldable pub tx_alloc : Heap → (ℕ → ℕ) → ℕ → Code PmemOid
unfolding tx_call
tx_alloc h fill n = tx_call >> λ m.
    let o = h.place m n in
    done o (record m {
      word = λ b. if within n o.off b then fill b else m.word b;
      owned = λ b. within n o.off b || m.owned b;
    })

-- TX_FREE
unfoldable pub tx_free_object : PmemOid → Code (Unit {0})
unfolding tx_call
tx_free_object o = tx_call >> λ m. done tt (record m { freed = o ∷ m.freed })

-- The words with each snapshot written back, the last one first.
abbrev pub rolled_back_words : List (ℕ × ℕ) → (ℕ → ℕ) → ℕ → ℕ
rolled_back_words [] word = word
rolled_back_words ((at, v) ∷ log) word = rolled_back_words log (put_word word at v)

-- The pool as a transaction begins.
abbrev pub at_begin : (ℕ → ℕ) → ℕ → Memory
at_begin word luck = record { word = word; owned = λ b. false; log = []; freed = []; luck = luck }
