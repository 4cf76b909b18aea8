-- ===== src/Cache/Deletion.antt =====
-- src/cache/cache.c: `cache_delete` of an entry of the list.
use pmem_rts_cache.Common.{
  ℕ, suc, ◌-◌, ◌≤◌, ◌≡◌, ◌≢◌, refl, ◌∙◌, true, false, List, ◌∷◌, ◌++◌, arith,
}
use pmem_rts_cache.Pmem.{PmemOid}
use pmem_rts_cache.Cache.Pool.{
  vacant, Pool, done, Code, ◌>>=◌, ◌>>◌, entry_at, load, set_next, set_prev, tx_free, committed,
}
use pmem_rts_cache.Cache.Code.{refuses, cache_delete}
use pmem_rts_cache.Cache.Entries.{freeable}
use pmem_rts_cache.Cache.Links.{
  field_of, Linked, Linked-rest, AllApart, AllApart-rest, Unlinks, Linked-unlinked,
}
use pmem_rts_cache.Cache.Unlinking.{
  payload, linked_entry, field_of-some, join_neighbours, call_succeeds, tx_free-Frees,
}

-- The code of `cache_delete` after its TX_ADD_FIELDs.
unfoldable pub delete_entry : PmemOid → Code (Unit {0})
unfolding load set_next set_prev tx_free
delete_entry entry = do
  e ← load entry
  set_prev e.next e.prev
  set_next e.prev e.next
  tx_free entry

-- What a deletion leaves: the list without the entry, every other entry with its key and value, the
-- place of the entry empty after a commit, and the fields of the cache.
pub record Deleted (w : Pool) (xs : List PmemOid) (a entry b : PmemOid) (ys : List PmemOid)
    (w' : Pool) : Type 0 where
  pub list : Linked w' (xs ++ a ∷ b ∷ ys)
  pub holds :
      (o : PmemOid)
      → o.off ≢ entry.off
      → field_of payload (entry_at w' o) ≡ field_of payload (entry_at w o)
  pub gone : committed (w'.cell entry.off) ≡ vacant
  pub cache : w'.cache ≡ w.cache

taken_out :
    (w : Pool) (xs : List PmemOid) (a entry b : PmemOid) (ys : List PmemOid) (n : ℕ)
    → w.luck ≡ suc n
    → AllApart (xs ++ a ∷ entry ∷ b ∷ ys)
    → Linked w (xs ++ a ∷ entry ∷ b ∷ ys)
    → freeable (w.cell entry.off) ≡ true
    → (w' : Pool) × (delete_entry entry w ≡ done tt w') × Deleted w xs a entry b ys w'
unfolding delete_entry load
taken_out w xs a entry b ys n lucky apart linked live =
    let ends = AllApart-rest xs (a ∷ entry ∷ b ∷ ys) apart in
    let ((ae, (ab, _)), _) = ends in
    let ((an, ep), ((en, bp), _)) = Linked-rest w a xs (entry ∷ b ∷ ys) linked in
    let (x, ha, _) = linked_entry (λ e. e.next) (entry_at w a) entry an in
    let (y, he, back) = linked_entry (λ e. e.prev) (entry_at w entry) a ep in
    let (z, hb, _) = linked_entry (λ e. e.prev) (entry_at w b) entry bp in
    let onward = field_of-some (λ e. e.next) (entry_at w entry) y b he en in
    let (w2, ran2, r) = join_neighbours w a b x z ha hb ab in
    let (w3, ran3, f) = tx_free-Frees w2 entry n (r.luck ∙ lucky) (r.frees entry.off ∙ live) in
    let u : Unlinks w a entry b w3 = record {
      next = λ o away. rw (f.others o away) (r.next o);
      prev = λ o away. rw (f.others o away) (r.prev o);
    } in
    (
      w3,
      rw (load, he) (rw (back, onward) (ran2 (tx_free entry) ∙ ran3)),
      record {
        list = Linked-unlinked ys u ends xs apart linked;
        holds = λ o away. rw (f.others o away) (r.holds o);
        gone = f.gone;
        cache = f.cache ∙ r.cache;
      },
    )

-- The four calls of libpmemobj that `cache_delete` begins with on a cache that it does not refuse.
pub four_calls :
    (w : Pool) (entry : PmemOid) (n : ℕ)
    → refuses w ≡ false
    → w.luck ≡ suc (suc (suc (suc n)))
    → cache_delete entry w ≡ delete_entry entry (record w { luck = n })
unfolding cache_delete delete_entry
four_calls w entry n accepted lucky =
    rw (cache_delete, accepted, call_succeeds w (suc (suc (suc n))) lucky) refl

-- Where libpmemobj does all that it is asked for, `cache_delete` on an entry between two others of a
-- doubly linked list of different entries takes it out: the others are a doubly linked list in the
-- same order, with their keys and values, the entry is freed when the transaction commits, and the
-- fields of the cache are as before.
pub cache_delete_lem :
    (w : Pool) (xs : List PmemOid) (a entry b : PmemOid) (ys : List PmemOid)
    → refuses w ≡ false
    → 5 ≤ w.luck
    → AllApart (xs ++ a ∷ entry ∷ b ∷ ys)
    → Linked w (xs ++ a ∷ entry ∷ b ∷ ys)
    → freeable (w.cell entry.off) ≡ true
    → (w' : Pool) × (cache_delete entry w ≡ done tt w') × Deleted w xs a entry b ys w'
cache_delete_lem w xs a entry b ys accepted lucky apart linked live =
    let n = w.luck - 5 in
    let (w', ran, d) =
      taken_out (record w { luck = suc n }) xs a entry b ys n refl apart linked live in
    (
      w',
      four_calls w entry (suc n) accepted (omega (arith, lucky)) ∙ ran,
      record { list = d.list; holds = d.holds; gone = d.gone; cache = d.cache },
    )
