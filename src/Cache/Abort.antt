-- ===== src/Cache/Abort.antt =====
-- src/cache/cache.c: a `cache_delete` whose TX_FREE fails, within the transaction of `cache_get` or
-- `cache_set`.
use pmem_rts_cache.Common.{
  suc, zero, ◌≡◌, ◌≢◌, refl, sym, ◌∙◌, ap, ==_self, ne→==_false, true, false, some,
}
use pmem_rts_cache.Pmem.{PmemOid}
use pmem_rts_cache.Cache.Pool.{
  Cell, vacant, kept, fresh, doomed, Pool, aborted, done, call, entry_at, held, load, tx_free,
  rolled_back,
}
use pmem_rts_cache.Cache.Code.{failed, refuses, outcome, cache_delete}
use pmem_rts_cache.Cache.Entries.{lasting}
use pmem_rts_cache.Cache.Links.{next_of, prev_of, Links}
use pmem_rts_cache.Cache.Unlinking.{linked_entry, field_of-some, join_neighbours}
use pmem_rts_cache.Cache.Deletion.{delete_entry, four_calls}

-- The pool after the abort of the outermost transaction.
abbrev undone : Pool → Pool → Pool
undone old w = record w { cache = old.cache; cell = λ at. rolled_back (w.cell at) }

held-rolled_back : (c : Cell) → lasting c ≡ true → held (rolled_back c) ≡ held c
held-rolled_back vacant h = refl
held-rolled_back (kept e) h = refl
held-rolled_back (fresh e) h = absurd (false≢true h)
  where
    false≢true : false ≡ true → ⊥
    false≢true e = cc
held-rolled_back (doomed e) h = refl

entry_at-undone :
    (old w : Pool) (o : PmemOid)
    → lasting (w.cell o.off) ≡ true
    → entry_at (undone old w) o ≡ entry_at w o
entry_at-undone old w o lasts = rw (held-rolled_back (w.cell o.off) lasts) refl

call_fails : (w : Pool) → w.luck ≡ 0 → call w ≡ aborted w
unfolding call
call_fails w unlucky =
    ap (λ n. elim n [ zero ↦ aborted w | suc k ↦ done tt (record w { luck = k }) ]) unlucky

-- TX_FREE where libpmemobj fails.
tx_free_aborts : (w : Pool) (o : PmemOid) → w.luck ≡ 0 → tx_free o w ≡ aborted w
unfolding tx_free
tx_free_aborts w o unlucky = rw (tx_free, call_fails w unlucky) refl

-- An abort of `cache_delete` at its TX_FREE does not give the list back its entry. The outermost
-- transaction fails and the fields of the cache are as they were, but the neighbours of the entry stay
-- linked to each other, since the code adds no entry to its transaction. The entry is still allocated
-- and still points to both of them.
pub cache_delete_aborts :
    (old w : Pool) (a entry b : PmemOid)
    → refuses w ≡ false
    → w.luck ≡ 4
    → a.off ≢ entry.off
    → b.off ≢ entry.off
    → a.off ≢ b.off
    → Links w a entry
    → Links w entry b
    → lasting (w.cell a.off) ≡ true
    → lasting (w.cell entry.off) ≡ true
    → lasting (w.cell b.off) ≡ true
    → (w' : Pool) × (r : Pool) × (cache_delete entry w ≡ aborted w')
      × (outcome old (aborted w') ≡ some (failed, r))
      × (r.cache ≡ old.cache)
      × Links r a b
      × (prev_of r entry ≡ some a)
      × (next_of r entry ≡ some b)
unfolding delete_entry load
cache_delete_aborts old w a entry b accepted four ae be ab (an, ep) (en, bp) la le lb =
    let w0 : Pool = record w { luck = 0 } in
    let (x, ha, _) = linked_entry (λ e. e.next) (entry_at w a) entry an in
    let (y, he, back) = linked_entry (λ e. e.prev) (entry_at w entry) a ep in
    let (z, hb, _) = linked_entry (λ e. e.prev) (entry_at w b) entry bp in
    let onward = field_of-some (λ e. e.next) (entry_at w entry) y b he en in
    let (w2, ran2, r) = join_neighbours w0 a b x z ha hb ab in
    let stays : (o : PmemOid)
        → lasting (w.cell o.off) ≡ true
        → entry_at (undone old w2) o ≡ entry_at w2 o =
      λ o l. entry_at-undone old w2 o (r.lasts o.off ∙ l) in
    (
      w2,
      undone old w2,
      four_calls w entry 0 accepted four
          ∙ rw (delete_entry, load, he)
              (rw (back, onward) (ran2 (tx_free entry) ∙ tx_free_aborts w2 entry r.luck)),
      refl,
      refl,
      (
        rw (stays a la) (r.next a ∙ rw (==_self a.off) refl),
        rw (stays b lb) (r.prev b ∙ rw (==_self b.off) refl),
      ),
      rw (stays entry le) (r.prev entry ∙ rw (ne→==_false entry.off b.off (λ e. be (sym e))) ep),
      rw (stays entry le) (r.next entry ∙ rw (ne→==_false entry.off a.off (λ e. ae (sym e))) en),
    )
