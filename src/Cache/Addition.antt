-- ===== src/Cache/Addition.antt =====
-- src/cache/cache.c: `cache_add`, which puts an entry behind the head and a copy of the first entry
-- behind that.
use pmem_rts_cache.Common.{
  ℕ, suc, ◌-◌, ◌≤◌, ◌≡◌, ◌≢◌, refl, sym, ◌∙◌, ap, false, none, some, ==_self, ne→==_false, arith,
}
use pmem_rts_cache.Pmem.{PmemOid, oid_is_null}
use pmem_rts_cache.Cache.Pool.{
  CacheEntry, fresh, Cache, Pool, fault, done, Code, ◌>>=◌, ◌>>◌, call, cache_fields, entry_at,
  held, load, store, set_next, set_prev, tx_memcpy, Allocator, tx_new, update,
}
use pmem_rts_cache.Cache.Code.{refuses, cache_add}
use pmem_rts_cache.Cache.Entries.{
  Stored, store-Stored, set_next-Stored, set_prev-Stored, Stored-entry, entry_at-held, none_some,
}
use pmem_rts_cache.Cache.Unlinking.{call_succeeds}

module _ {w w' : Pool} {o : PmemOid} {old e : CacheEntry} (h : entry_at w o ≡ some old)
    (s : Stored w o e w') where
  written : entry_at w' o ≡ some e
  written = Stored-entry w w' o old e h s o ∙ rw (==_self o.off) refl

  unwritten : (q : PmemOid) → q.off ≢ o.off → entry_at w' q ≡ entry_at w q
  unwritten q apart = Stored-entry w w' o old e h s q ∙ rw (ne→==_false q.off o.off apart) refl

-- What the end of `cache_add` writes: the head and the new entry with new links, and the copy, which
-- points back to the new entry.
pub record Fronted (w : Pool) (head entry dummy : PmemOid) (first : CacheEntry) (eh ee : CacheEntry)
    (w' : Pool) : Type 0 where
  pub at_head : entry_at w' head ≡ some (record eh { next = entry })
  pub at_entry : entry_at w' entry ≡ some (record ee { prev = head; next = dummy })
  pub at_dummy : entry_at w' dummy ≡ some (record first { prev = entry })
  pub others :
      (o : PmemOid)
      → o.off ≢ head.off
      → o.off ≢ entry.off
      → o.off ≢ dummy.off
      → entry_at w' o ≡ entry_at w o
  pub cache : w'.cache ≡ w.cache

fronted :
    (w : Pool) (head entry dummy : PmemOid) (first eh ee old : CacheEntry) (n : ℕ)
    → w.luck ≡ suc n
    → entry_at w head ≡ some eh
    → entry_at w entry ≡ some ee
    → entry_at w dummy ≡ some old
    → head.off ≢ entry.off
    → head.off ≢ dummy.off
    → entry.off ≢ dummy.off
    → (w' : Pool) × ((tx_memcpy dummy first
            >> (set_next head entry
                >> (set_prev entry head >> (set_next entry dummy >> set_prev dummy entry))))
          w
        ≡ done tt w')
      × Fronted w head entry dummy first eh ee w'
fronted w head entry dummy first eh ee old n lucky hh he hd he' hd' ed =
    let w1 : Pool = record w { luck = n } in
    let (w2, ran2, s2) = store-Stored w1 dummy old first hd in
    let h2 = unwritten hd s2 head hd' ∙ hh in
    let (w3, ran3, s3) = set_next-Stored w2 head entry eh h2 in
    let e3 = unwritten h2 s3 entry (λ e. he' (sym e)) ∙ unwritten hd s2 entry ed ∙ he in
    let (w4, ran4, s4) = set_prev-Stored w3 entry head ee e3 in
    let e4 = written e3 s4 in
    let (w5, ran5, s5) = set_next-Stored w4 entry dummy (record ee { prev = head }) e4 in
    let d5 =
      unwritten e4 s5 dummy (λ e. ed (sym e))
      ∙ unwritten e3 s4 dummy (λ e. ed (sym e))
      ∙ unwritten h2 s3 dummy (λ e. hd' (sym e))
      ∙ written hd s2 in
    let (w6, ran6, s6) = set_prev-Stored w5 dummy entry first d5 in
    (
      w6,
      rw (call_succeeds w n lucky) (rw (ran2, ran3, ran4, ran5) ran6),
      record {
        at_head =
            unwritten d5 s6 head hd'
            ∙ unwritten e4 s5 head he'
            ∙ unwritten e3 s4 head he'
            ∙ written h2 s3;
        at_entry = unwritten d5 s6 entry ed ∙ written e4 s5;
        at_dummy = written d5 s6;
        others = λ o oh oe od.
            unwritten d5 s6 o od
            ∙ unwritten e4 s5 o oe
            ∙ unwritten e3 s4 o oe
            ∙ unwritten h2 s3 o oh
            ∙ unwritten hd s2 o od;
        cache = s6.cache ∙ s5.cache ∙ s4.cache ∙ s3.cache ∙ s2.cache;
      },
    )

-- A place that is not in use is not that of an entry.
place_apart :
    (w : Pool) (o d : PmemOid) (e : CacheEntry)
    → held (w.cell d.off) ≡ none
    → entry_at w o ≡ some e
    → o.off ≢ d.off
place_apart w o d e unused there same =
    none_some (sym unused ∙ ap (λ k. held (w.cell k)) (sym same) ∙ entry_at-held w o e there)

cache_fields_lem : (w : Pool) (c : Cache) → w.cache ≡ some c → cache_fields w ≡ done c w
unfolding cache_fields
cache_fields_lem w c has = ap (λ o. elim o [ none ↦ fault | some c' ↦ done c' w ]) has

load_lem : (w : Pool) (o : PmemOid) (e : CacheEntry) → entry_at w o ≡ some e → load o w ≡ done e w
unfolding load
load_lem w o e there = rw (load, there) refl

module _ (a : Allocator) where
  -- The pool after TX_NEW.
  abbrev with_new : Pool → ℕ → Pool
  with_new w n = record w { luck = n; cell = update w.cell (a.place w.cell).off (fresh a.unset) }

  tx_new_lem :
      (w : Pool) (n : ℕ) → w.luck ≡ suc n → tx_new a w ≡ done (a.place w.cell) (with_new w n)
  unfolding tx_new
  tx_new_lem w n lucky = rw (tx_new, call_succeeds w n lucky) refl

  -- The code of `cache_add` after its TX_ADD_FIELDs.
  unfoldable add_entry : PmemOid → Code (Unit {0})
  unfolding call load store set_next set_prev tx_new cache_fields
  add_entry entry = do
    dummy ← tx_new a
    c ← cache_fields
    head ← load c.head
    first ← load head.next
    tx_memcpy dummy first
    set_next c.head entry
    set_prev entry c.head
    set_next entry dummy
    set_prev dummy entry

  four_calls :
      (w : Pool) (entry : PmemOid) (n : ℕ)
      → refuses w ≡ false
      → w.luck ≡ suc (suc (suc (suc n)))
      → cache_add a entry w ≡ add_entry entry (record w { luck = n })
  unfolding cache_add add_entry
  four_calls w entry n accepted lucky =
      rw (cache_add, accepted, call_succeeds w (suc (suc (suc n))) lucky) refl

  module _ (w : Pool) (entry : PmemOid) (c : Cache) (eh first ee : CacheEntry)
      (has : w.cache ≡ some c) (hh : entry_at w c.head ≡ some eh)
      (hf : entry_at w eh.next ≡ some first) (he : entry_at w entry ≡ some ee)
      (placed : oid_is_null (a.place w.cell) ≡ false)
      (unused : held (w.cell (a.place w.cell).off) ≡ none) (apart : c.head.off ≢ entry.off) where
    added :
        (n : ℕ)
        → w.luck ≡ suc (suc n)
        → (w' : Pool) × (add_entry entry w ≡ done tt w')
          × Fronted w c.head entry (a.place w.cell) first eh ee w'
    unfolding add_entry
    added n lucky =
        let d = a.place w.cell in
        let w1 : Pool = with_new w (suc n) in
        let away : (o : PmemOid) (e : CacheEntry) → entry_at w o ≡ some e → entry_at w1 o ≡ some e =
          λ o e there. rw (ne→==_false o.off d.off (place_apart w o d e unused there)) there in
        let at_place : entry_at w1 d ≡ some a.unset = rw (placed, ==_self d.off) refl in
        let (w', ran, f) =
          fronted w1 c.head entry d first eh ee a.unset n refl (away c.head eh hh)
            (away entry ee he) at_place apart (place_apart w c.head d eh unused hh)
            (place_apart w entry d ee unused he) in
        (
          w',
          rw (add_entry, tx_new_lem w (suc n) lucky)
              (rw
                (
                  cache_fields_lem w1 c has,
                  load_lem w1 c.head eh (away c.head eh hh),
                  load_lem w1 eh.next first (away eh.next first hf),
                )
                ran),
          record {
            at_head = f.at_head;
            at_entry = f.at_entry;
            at_dummy = f.at_dummy;
            others = λ o oh oe od. f.others o oh oe od ∙ rw (ne→==_false o.off d.off od) refl;
            cache = f.cache;
          },
        )

-- Where libpmemobj does all that it is asked for and allocates at a place that is not in use,
-- `cache_add` links the head to the entry and the entry to a copy of the first entry, which points
-- back to the entry and on to what the first one did. Every entry at another place is as before, also
-- the first one, and one that points back to it and not to the copy.
pub cache_add_lem :
    (a : Allocator) (w : Pool) (entry : PmemOid) (c : Cache) (eh first ee : CacheEntry)
    → refuses w ≡ false
    → 6 ≤ w.luck
    → w.cache ≡ some c
    → entry_at w c.head ≡ some eh
    → entry_at w eh.next ≡ some first
    → entry_at w entry ≡ some ee
    → oid_is_null (a.place w.cell) ≡ false
    → held (w.cell (a.place w.cell).off) ≡ none
    → c.head.off ≢ entry.off
    → (w' : Pool) × (cache_add a entry w ≡ done tt w')
      × Fronted w c.head entry (a.place w.cell) first eh ee w'
cache_add_lem a w entry c eh first ee accepted lucky has hh hf he placed unused apart =
    let n = w.luck - 6 in
    let (w', ran, f) =
      added a (record w { luck = suc (suc n) }) entry c eh first ee has hh hf he placed unused apart
        n refl in
    (
      w',
      four_calls a w entry (suc (suc n)) accepted (omega (arith, lucky)) ∙ ran,
      record {
        at_head = f.at_head;
        at_entry = f.at_entry;
        at_dummy = f.at_dummy;
        others = f.others;
        cache = f.cache;
      },
    )
