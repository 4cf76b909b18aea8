-- ===== src/Cache/Entries.antt =====
-- src/cache/cache.c: what a write to an entry of the cache changes.
use pmem_rts_cache.Common.{
  ℕ, ◌≡◌, refl, sym, ◌∙◌, ap, Bool, true, false, Option, none, some, ◌==◌, ==_iff, ==_false_ne,
  ne→==_false, ◌≢◌, if◌then◌else◌, inl, inr, Bool-cases,
}
use pmem_rts_cache.Pmem.{PmemOid, oid_is_null}
use pmem_rts_cache.Cache.Pool.{
  CacheEntry, Cell, vacant, kept, fresh, doomed, Pool, done, entry_at, held, refilled, update, load,
  store, set_next, set_prev,
}

-- What can be freed.
abbrev pub freeable : Cell → Bool
freeable vacant = false
freeable (kept e) = true
freeable (fresh e) = true
freeable (doomed e) = false

-- What an abort leaves as it is.
abbrev pub lasting : Cell → Bool
lasting vacant = true
lasting (kept e) = true
lasting (fresh e) = false
lasting (doomed e) = true

-- One entry was replaced, and nothing else was changed.
pub record Stored (w : Pool) (o : PmemOid) (e : CacheEntry) (w' : Pool) : Type 0 where
  pub cache : w'.cache ≡ w.cache
  pub luck : w'.luck ≡ w.luck
  pub reads : (at : ℕ) → held (w'.cell at) ≡ (if at == o.off then some e else held (w.cell at))
  pub frees : (at : ℕ) → freeable (w'.cell at) ≡ freeable (w.cell at)
  pub lasts : (at : ℕ) → lasting (w'.cell at) ≡ lasting (w.cell at)

held-refilled : (c : Cell) (old e : CacheEntry) → held c ≡ some old → held (refilled c e) ≡ some e
held-refilled vacant old e h = absurd (none≢some h)
  where
    none≢some : ◌≡◌ {A = Option CacheEntry} none (some old) → ⊥
    none≢some e = cc
held-refilled (kept _) old e h = refl
held-refilled (fresh _) old e h = refl
held-refilled (doomed _) old e h = refl

module _ (f : Cell → Bool) (kind : (c : Cell) (e : CacheEntry) → f (refilled c e) ≡ f c) where
  -- What depends on the kind of a cell alone.
  same_kind :
      (cell : ℕ → Cell) (off : ℕ) (e : CacheEntry) (at : ℕ)
      → f (update cell off (refilled (cell off) e) at) ≡ f (cell at)
  same_kind cell off e at = elim (Bool-cases (at == off)) [
    | inl same ↦ rw same (kind (cell off) e ∙ ap (λ k. f (cell k)) (sym ((==_iff at off).0 same)))
    | inr other ↦ rw other refl
  ]

freeable-refilled : (c : Cell) (e : CacheEntry) → freeable (refilled c e) ≡ freeable c
freeable-refilled vacant e = refl
freeable-refilled (kept _) e = refl
freeable-refilled (fresh _) e = refl
freeable-refilled (doomed _) e = refl

lasting-refilled : (c : Cell) (e : CacheEntry) → lasting (refilled c e) ≡ lasting c
lasting-refilled vacant e = refl
lasting-refilled (kept _) e = refl
lasting-refilled (fresh _) e = refl
lasting-refilled (doomed _) e = refl

pub entry_at-held :
    (w : Pool) (o : PmemOid) (e : CacheEntry) → entry_at w o ≡ some e → held (w.cell o.off) ≡ some e
entry_at-held w o e h = elim (Bool-cases (oid_is_null o)) [
  | inl null ↦ absurd (none≢some (rw null at h))
  | inr there ↦ rw there at h
]
  where
    none≢some : ◌≡◌ {A = Option CacheEntry} none (some e) → ⊥
    none≢some e = cc

pub store-Stored :
    (w : Pool) (o : PmemOid) (old e : CacheEntry)
    → entry_at w o ≡ some old
    → (w' : Pool) × (store o e w ≡ done tt w') × Stored w o e w'
unfolding store
store-Stored w o old e h = (
  record w { cell = update w.cell o.off (refilled (w.cell o.off) e) },
  rw (store, h) refl,
  record {
    cache = refl;
    luck = refl;
    reads = λ at. elim (Bool-cases (at == o.off)) [
      | inl same ↦ rw same (held-refilled (w.cell o.off) old e (entry_at-held w o old h))
      | inr other ↦ rw other refl
    ];
    frees = same_kind freeable freeable-refilled w.cell o.off e;
    lasts = same_kind lasting lasting-refilled w.cell o.off e;
  },
)

pub set_next-Stored :
    (w : Pool) (o next : PmemOid) (old : CacheEntry)
    → entry_at w o ≡ some old
    → (w' : Pool) × (set_next o next w ≡ done tt w') × Stored w o (record old { next = next }) w'
unfolding set_next load
set_next-Stored w o next old h =
    let (w', ran, s) = store-Stored w o old (record old { next = next }) h in
    (w', rw (load, h) ran, s)

pub set_prev-Stored :
    (w : Pool) (o prev : PmemOid) (old : CacheEntry)
    → entry_at w o ≡ some old
    → (w' : Pool) × (set_prev o prev w ≡ done tt w') × Stored w o (record old { prev = prev }) w'
unfolding set_prev load
set_prev-Stored w o prev old h =
    let (w', ran, s) = store-Stored w o old (record old { prev = prev }) h in
    (w', rw (load, h) ran, s)

pub none_some : {A B : Type 0} {x : A} → ◌≡◌ {A = Option A} none (some x) → B
none_some {A} {B} {x} e = absurd (none≢some e)
  where
    none≢some : ◌≡◌ {A = Option A} none (some x) → ⊥
    none≢some e = cc

not_null : (w : Pool) (o : PmemOid) (e : CacheEntry) → entry_at w o ≡ some e → o.off ≢ 0
not_null w o e h = elim (Bool-cases (oid_is_null o)) [
  | inl null ↦ none_some (rw null at h)
  | inr there ↦ ==_false_ne o.off 0 there
]

pub Stored-entry :
    (w w' : Pool) (o : PmemOid) (old e : CacheEntry)
    → entry_at w o ≡ some old
    → Stored w o e w'
    → (q : PmemOid) → entry_at w' q ≡ (if q.off == o.off then some e else entry_at w q)
Stored-entry w w' o old e h s q = elim (Bool-cases (oid_is_null q)) [
  | inl null ↦
      let other : (q.off == o.off) ≡ false =
        ne→==_false q.off o.off (λ same. not_null w o old h (sym same ∙ (==_iff q.off 0).0 null)) in
      rw (null, other) refl
  | inr there ↦ rw there (s.reads q.off)
]
