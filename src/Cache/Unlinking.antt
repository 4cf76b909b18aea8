-- ===== src/Cache/Unlinking.antt =====
-- src/cache/cache.c: `cache_delete`, statement by statement.
use pmem_rts_cache.Common.{
  ℕ, suc, ◌≡◌, ◌≢◌, refl, ◌∙◌, ap, true, false, Option, none, some, ◌==◌, ==_iff, ==_self,
  ne→==_false, if◌then◌else◌, inl, inr, Bool-cases,
}
use pmem_rts_cache.Pmem.{PmemOid}
use pmem_rts_cache.Cache.Pool.{
  CacheEntry, Cell, vacant, kept, fresh, doomed, Pool, done, Code, ◌>>◌, and_then, call, entry_at,
  held, freed, set_next, set_prev, tx_free, update, committed,
}
use pmem_rts_cache.Cache.Entries.{
  freeable, lasting, Stored, set_next-Stored, set_prev-Stored, Stored-entry, none_some,
}
use pmem_rts_cache.Cache.Links.{field_of, next_of, prev_of}

entry_at-same_off : (w : Pool) (p q : PmemOid) → p.off ≡ q.off → entry_at w p ≡ entry_at w q
entry_at-same_off w p q e = ap (λ k. if k == 0 then none else held (w.cell k)) e

-- The entry behind a link.
pub linked_entry :
    (f : CacheEntry → PmemOid) (o : Option CacheEntry) (v : PmemOid)
    → field_of f o ≡ some v
    → (e : CacheEntry) × (o ≡ some e) × (f e ≡ v)
linked_entry f none v h = none_some h
linked_entry f (some e) v h = (e, refl, cc)

pub field_of-some :
    (f : CacheEntry → PmemOid) (o : Option CacheEntry) (e : CacheEntry) (v : PmemOid)
    → o ≡ some e
    → field_of f o ≡ some v
    → f e ≡ v
field_of-some f o e v h g = cc (rw h at g)

-- A field after a write to an entry.
Stored-field :
    (f : CacheEntry → PmemOid) (w w' : Pool) (o : PmemOid) (old e : CacheEntry)
    → entry_at w o ≡ some old
    → Stored w o e w'
    → (q : PmemOid)
    → field_of f (entry_at w' q)
      ≡ (if q.off == o.off then some (f e) else field_of f (entry_at w q))
Stored-field f w w' o old e h s q = elim (Bool-cases (q.off == o.off)) [
  | inl same ↦ rw (Stored-entry w w' o old e h s q, same) refl
  | inr other ↦ rw (Stored-entry w w' o old e h s q, other) refl
]

-- A field that the write leaves.
Stored-other_field :
    {A : Type 0} (f : CacheEntry → A) (w w' : Pool) (o : PmemOid) (old e : CacheEntry)
    → entry_at w o ≡ some old
    → f e ≡ f old
    → Stored w o e w'
    → (q : PmemOid) → field_of f (entry_at w' q) ≡ field_of f (entry_at w q)
Stored-other_field f w w' o old e h left s q = elim (Bool-cases (q.off == o.off)) [
  | inl same ↦
      rw
        (
          Stored-entry w w' o old e h s q,
          same,
          entry_at-same_off w q o ((==_iff q.off o.off).0 same),
          h,
        )
        (ap some left)
  | inr other ↦ rw (Stored-entry w w' o old e h s q, other) refl
]

-- The key and the value of an entry.
abbrev pub payload : CacheEntry → ℕ × ℕ
payload e = (e.key, e.value)

-- The two writes between neighbours.
pub record Rejoined (w : Pool) (a b : PmemOid) (w' : Pool) : Type 0 where
  pub cache : w'.cache ≡ w.cache
  pub luck : w'.luck ≡ w.luck
  pub frees : (at : ℕ) → freeable (w'.cell at) ≡ freeable (w.cell at)
  pub lasts : (at : ℕ) → lasting (w'.cell at) ≡ lasting (w.cell at)
  pub next : (o : PmemOid) → next_of w' o ≡ (if o.off == a.off then some b else next_of w o)
  pub prev : (o : PmemOid) → prev_of w' o ≡ (if o.off == b.off then some a else prev_of w o)
  pub holds : (o : PmemOid) → field_of payload (entry_at w' o) ≡ field_of payload (entry_at w o)

pub join_neighbours :
    (w : Pool) (a b : PmemOid) (x z : CacheEntry)
    → entry_at w a ≡ some x
    → entry_at w b ≡ some z
    → a.off ≢ b.off
    → (w' : Pool) × ((rest : Code (Unit {0}))
        → (set_prev b a >> (set_next a b >> rest)) w ≡ rest w')
      × Rejoined w a b w'
join_neighbours w a b x z ha hb apart =
    let (w1, ran1, s1) = set_prev-Stored w b a z hb in
    let ha1 : entry_at w1 a ≡ some x =
      Stored-entry w w1 b z (record z { prev = a }) hb s1 a
      ∙ rw (ne→==_false a.off b.off apart) ha in
    let (w2, ran2, s2) = set_next-Stored w1 a b x ha1 in
    (
      w2,
      λ rest. rw (ran1, ran2) refl,
      record {
        cache = s2.cache ∙ s1.cache;
        luck = s2.luck ∙ s1.luck;
        frees = λ at. s2.frees at ∙ s1.frees at;
        lasts = λ at. s2.lasts at ∙ s1.lasts at;
        next = λ o.
            Stored-field (λ e. e.next) w1 w2 a x (record x { next = b }) ha1 s2 o
            ∙ rw (Stored-other_field (λ e. e.next) w w1 b z (record z { prev = a }) hb refl s1 o)
                refl;
        prev = λ o.
            Stored-other_field (λ e. e.prev) w1 w2 a x (record x { next = b }) ha1 refl s2 o
            ∙ Stored-field (λ e. e.prev) w w1 b z (record z { prev = a }) hb s1 o;
        holds = λ o.
            Stored-other_field payload w1 w2 a x (record x { next = b }) ha1 refl s2 o
            ∙ Stored-other_field payload w w1 b z (record z { prev = a }) hb refl s1 o;
      },
    )

freed-committed :
    (c : Cell) → freeable c ≡ true → (d : Cell) × (freed c ≡ some d) × (committed d ≡ vacant)
freed-committed vacant h = absurd (false≢true h)
  where
    false≢true : false ≡ true → ⊥
    false≢true e = cc
freed-committed (kept e) h = (doomed e, refl, refl)
freed-committed (fresh e) h = (vacant, refl, refl)
freed-committed (doomed e) h = absurd (false≢true h)
  where
    false≢true : false ≡ true → ⊥
    false≢true e = cc

pub call_succeeds : (w : Pool) (n : ℕ) → w.luck ≡ suc n → call w ≡ done tt (record w { luck = n })
unfolding call
call_succeeds w n e = rw (call, e) refl

-- TX_FREE of an entry: it is gone once the transaction commits.
pub record Frees (w : Pool) (o : PmemOid) (w' : Pool) : Type 0 where
  pub cache : w'.cache ≡ w.cache
  pub others : (q : PmemOid) → q.off ≢ o.off → entry_at w' q ≡ entry_at w q
  pub gone : committed (w'.cell o.off) ≡ vacant

pub tx_free-Frees :
    (w : Pool) (o : PmemOid) (n : ℕ)
    → w.luck ≡ suc n
    → freeable (w.cell o.off) ≡ true
    → (w' : Pool) × (tx_free o w ≡ done tt w') × Frees w o w'
unfolding tx_free
tx_free-Frees w o n lucky live =
    let (d, ran, gone) = freed-committed (w.cell o.off) live in
    (
      record w { luck = n; cell = update w.cell o.off d },
      rw (tx_free, call_succeeds w n lucky) (rw (and_then, ran) refl),
      record {
        cache = refl;
        others = λ q apart. rw (ne→==_false q.off o.off apart) refl;
        gone = rw (==_self o.off) gone;
      },
    )
