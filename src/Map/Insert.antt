-- ===== src/Map/Insert.antt =====
-- src/map/hashmap_tx.c: `hm_tx_insert`.
use pmem_rts_cache.Common.{
  ℕ, ◌+◌, ◌*◌, ◌%◌, ◌<◌, ◌≡◌, refl, ◌∙◌, ap, Bool, true, false, ◌&&◌, Option, none, some, ◌==◌,
  if◌then◌else◌, ◌>>=◌, length, arith, Bool-cases, Option-cases, inl, inr, length-set,
}
use pmem_rts_cache.Pmem.{PmemOid, u64_mod}
use pmem_rts_cache.Map.Table.{Entry, HashmapTx}
use pmem_rts_cache.Map.Update.{
  Inserted, ok, existed, failed, scan, link, needs_growth, grow, hm_tx_insert,
}
use pmem_rts_cache.Map.Chains.{scan_lem}
use pmem_rts_cache.Map.Rows.{view, push-IsPlaced, view-push, length-flatten-push}
use pmem_rts_cache.Map.Invariant.{home, home-lt, IsValid, contents, IsSameMap, hash_valid, row_of}
use pmem_rts_cache.Map.Rebuild.{hm_tx_rebuild_lem}

-- What `hm_tx_insert` returns for a key with this value, if any.
abbrev pub insert_result : Bool → Option PmemOid → Inserted
insert_result commits (some _) = existed
insert_result true none = ok
insert_result false none = failed

abbrev pub is_ok : Inserted → Bool
is_ok ok = true
is_ok existed = false
is_ok failed = false

-- The map after `hm_tx_insert` returned `r`, against the map before it.
pub record Inserts (commits : Bool) (m : HashmapTx) (key : ℕ) (value : PmemOid)
    (r : Inserted × HashmapTx) : Type 0 where
  pub returns : r.0 ≡ insert_result commits (contents m key)
  pub valid : IsValid r.1
  pub count : r.1.count ≡ (if is_ok r.0 then m.count + 1 else m.count)
  pub reads :
      (q : ℕ) → contents r.1 q ≡ (if is_ok r.0 && key == q then some value else contents m q)
  pub untouched : is_ok r.0 ≡ false → r.1 ≡ m

grow_lem :
    (rebuilds : Bool) (m : HashmapTx) (num : ℕ)
    → IsValid m
    → (m' : HashmapTx) × (grow rebuilds m num ≡ some m') × IsSameMap m m'
unfolding grow
grow_lem rebuilds m num v = elim (Bool-cases (needs_growth num m m.buckets.nbuckets)) [
  | inl e ↦
      let (m', run, same, _) =
        hm_tx_rebuild_lem rebuilds m (m.buckets.nbuckets * 2 % u64_mod) v (omega arith) in
      (m', rw e run, same)
  | inr e ↦ (m, rw e, record { valid = v; count = refl; reads = λ q. refl })
]

-- The table after the transaction of `hm_tx_insert`.
unfoldable pub linked : HashmapTx → Entry → HashmapTx
linked m e = link m (home m m.buckets.nbuckets e.key) (row_of m e.key) e

module _ (m : HashmapTx) (e : Entry) (v : IsValid m) where
  rows-lt : (q : ℕ) → home m m.buckets.nbuckets q < m.buckets.nbuckets
  rows-lt q = home-lt m m.buckets.nbuckets q v.pos

  linked-IsValid : contents m e.key ≡ none → m.count + 1 < u64_mod → IsValid (linked m e)
  unfolding linked home
  linked-IsValid absent fits =
      let h = home m m.buckets.nbuckets in
      record {
        width = length-set m.buckets.bucket _ _ ∙ v.width;
        pos = v.pos;
        small = v.small;
        prime = v.prime;
        scale = v.scale;
        counted = omega (
          arith,
          length-flatten-push h m.buckets.nbuckets rows-lt e m.buckets.bucket v.width,
          v.counted,
        );
        counts = omega arith;
        placed =
            push-IsPlaced h m.buckets.nbuckets rows-lt e m.buckets.bucket v.width v.placed absent;
      }

  count-linked : m.count + 1 < u64_mod → (linked m e).count ≡ m.count + 1
  unfolding linked
  count-linked fits = omega arith

  contents-linked :
      (q : ℕ) → contents (linked m e) q ≡ (if e.key == q then some e.value else contents m q)
  unfolding linked home
  contents-linked q =
      view-push (home m m.buckets.nbuckets) m.buckets.nbuckets rows-lt e m.buckets.bucket q v.width

  scan_there : {old : PmemOid} → contents m e.key ≡ some old → scan e.key (row_of m e.key) 0 ≡ none
  unfolding view
  scan_there there = rw (scan_lem e.key (row_of m e.key) 0, there)

  scan_absent :
      contents m e.key ≡ none → scan e.key (row_of m e.key) 0 ≡ some (length (row_of m e.key))
  unfolding view
  scan_absent absent = rw (scan_lem e.key (row_of m e.key) 0, absent) (ap some (omega arith))

  -- A transaction that commits is followed by at most one rebuild.
  Inserts-linked :
      {commits : Bool} {m' : HashmapTx}
      → commits ≡ true
      → contents m e.key ≡ none
      → m.count + 1 < u64_mod
      → IsSameMap (linked m e) m'
      → Inserts commits m e.key e.value (ok, m')
  Inserts-linked c absent fits same = record {
    returns = rw (absent, c);
    valid = same.valid;
    count = same.count ∙ count-linked fits;
    reads = λ q. same.reads q ∙ contents-linked q;
    untouched = λ h. cc;
  }

-- `hm_tx_insert` of a valid map that can still count one more entry does not fault. It returns 1 for
-- a key that is there, else 0 if its transaction commits and -1 if not. On 0 the key has the new
-- value, the count is one more and every other key reads as before, whether or not the table was
-- rebuilt; otherwise the map is untouched. The invariant is kept in every case.
pub hm_tx_insert_lem :
    (commits rebuilds : Bool) (m : HashmapTx) (key : ℕ) (value : PmemOid)
    → IsValid m
    → m.count + 1 < u64_mod
    → (r : Inserted × HashmapTx) × (hm_tx_insert commits rebuilds m key value ≡ some r)
      × Inserts commits m key value r
unfolding hm_tx_insert linked
hm_tx_insert_lem commits rebuilds m key value v fits =
    let (hashed, row) = hash_valid key v in
    let e : Entry = record { key = key; value = value } in
    elim (Option-cases (contents m key)) [
      | inr (old, there) ↦ (
        (existed, m),
        rw (hashed, row, ◌>>=◌, scan_there m e v there),
        record {
          returns = rw there;
          valid = v;
          count = refl;
          reads = λ q. refl;
          untouched = λ _. refl;
        },
      )
      | inl absent ↦ elim (Bool-cases commits) [
        | inl c ↦
            let n = length (row_of m key) + 1 in
            let (m', run, same) =
              grow_lem rebuilds (linked m e) n (linked-IsValid m e v absent fits) in
            (
              (ok, m'),
              rw (hashed, row, ◌>>=◌, scan_absent m e v absent, c, run),
              Inserts-linked m e v c absent fits same,
            )
        | inr c ↦ (
          (failed, m),
          rw (hashed, row, ◌>>=◌, scan_absent m e v absent, c),
          record {
            returns = rw (absent, c);
            valid = v;
            count = refl;
            reads = λ q. refl;
            untouched = λ _. refl;
          },
        )
      ]
    ]
