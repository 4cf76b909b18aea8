-- ===== src/Map/Remove.antt =====
-- src/map/hashmap_tx.c: `hm_tx_remove`.
use mathlib.Core.Option
use pmem_rts_cache.Common.{
  ℕ, ◌+◌, ◌/◌, ◌≤◌, ◌<◌, ◌≡◌, ◌⊎◌, refl, ◌∙◌, ap, Bool, true, false, ◌&&◌, Option, none, some, ◌==◌,
  if◌then◌else◌, ◌>>=◌, length, arith, Bool-cases, Option-cases, inl, inr, length-set, ltb, flatten,
  length-flatten-set,
}
use pmem_rts_cache.Pmem.{PmemOid, oid_null}
use pmem_rts_cache.Map.Table.{HashmapTx}
use pmem_rts_cache.Map.Update.{unlink, cut, shrink, hm_tx_remove}
use pmem_rts_cache.Map.Chains.{
  find, occurs, without, unlink-none, unlink-some, occurs-without-le, find-without, length-without,
}
use pmem_rts_cache.Map.Rows.{view, view-set, set-IsPlaced}
use pmem_rts_cache.Map.Invariant.{home, home-lt, IsValid, contents, IsSameMap, hash_valid, row_of}
use pmem_rts_cache.Map.Rebuild.{hm_tx_rebuild_lem}

-- How many entries a key with this value has.
abbrev pub entries : Option PmemOid → ℕ
entries none = 0
entries (some _) = 1

-- What `hm_tx_remove` returned, and the map after it, against the map before it.
pub record Removes (commits : Bool) (m : HashmapTx) (key : ℕ) (r : PmemOid × HashmapTx)
    : Type 0 where
  pub returns : r.0 ≡ (if commits then Option.get_or (contents m key) oid_null else oid_null)
  pub valid : IsValid r.1
  pub count : r.1.count + (if commits then entries (contents m key) else 0) ≡ m.count
  pub reads : (q : ℕ) → contents r.1 q ≡ (if commits && key == q then none else contents m q)
  pub untouched : (commits ≡ false) ⊎ (contents m key ≡ none) → r.1 ≡ m

shrink_lem :
    (rebuilds : Bool) (m : HashmapTx)
    → IsValid m
    → (m' : HashmapTx) × (shrink rebuilds m ≡ some m') × IsSameMap m m'
unfolding shrink
shrink_lem rebuilds m v = elim (Bool-cases (ltb m.count m.buckets.nbuckets)) [
  | inl e ↦
      let (m', run, same, _) =
        hm_tx_rebuild_lem rebuilds m (m.buckets.nbuckets / 2) v (omega arith) in
      (m', rw e run, same)
  | inr e ↦ (m, rw e, record { valid = v; count = refl; reads = λ q. refl })
]

-- The table after the transaction of `hm_tx_remove`.
unfoldable pub removed : HashmapTx → ℕ → HashmapTx
removed m q = cut m (home m m.buckets.nbuckets q) (without q (row_of m q))

module _ (m : HashmapTx) (key : ℕ) (v : IsValid m) where
  open m.buckets use {nbuckets, bucket}

  few :
      (q : ℕ)
      → occurs q (row_of m key) ≤ (if home m nbuckets q == home m nbuckets key then 1 else 0)
  few q = v.placed q (home m nbuckets key)

  inside : home m nbuckets key < length bucket
  inside = omega (arith, home-lt m nbuckets key v.pos)

  -- One entry less, and the count says so.
  count-removed :
      {old : PmemOid}
      → contents m key ≡ some old
      → ((removed m key).count + 1 ≡ m.count)
        × (length (flatten (removed m key).buckets.bucket) + 1 ≡ m.count)
  unfolding removed view
  count-removed {old} there =
      let shorter = length-without key (row_of m key) old there in
      let total =
        length-flatten-set bucket (home m nbuckets key) (without key (row_of m key)) inside in
      (omega arith, omega arith)

  removed-IsValid : {old : PmemOid} → contents m key ≡ some old → IsValid (removed m key)
  unfolding removed home
  removed-IsValid there =
      let (counted, total) = count-removed there in
      record {
        width = length-set bucket _ _ ∙ v.width;
        pos = v.pos;
        small = v.small;
        prime = v.prime;
        scale = v.scale;
        counted = omega arith;
        counts = omega arith;
        placed =
            set-IsPlaced (home m nbuckets) bucket _ (without key (row_of m key)) inside v.placed
              (λ q. omega (arith, occurs-without-le key q (row_of m key), few q));
      }

  contents-removed :
      (q : ℕ) → contents (removed m key) q ≡ (if key == q then none else contents m q)
  unfolding removed home
  contents-removed q =
      view-set (home m nbuckets) bucket _ (without key (row_of m key)) q inside ∙ taken
    where
      taken :
          (if home m nbuckets key == home m nbuckets q
            then find q (without key (row_of m key))
            else contents m q)
          ≡ (if key == q then none else contents m q)
      taken =
          unfold view in
          ground (
            arith,
            find-without key q (row_of m key),
            few q,
            ap (home m nbuckets) {x = key} {y = q},
          )

  unlink_there :
      {old : PmemOid}
      → contents m key ≡ some old
      → unlink key (row_of m key) ≡ some (old, without key (row_of m key))
  unfolding view
  unlink_there {old} there = unlink-some key (row_of m key) old there

  unlink_absent : contents m key ≡ none → unlink key (row_of m key) ≡ none
  unfolding view
  unlink_absent absent = unlink-none key (row_of m key) absent

  Removes-removed :
      {commits : Bool} {old : PmemOid} {m' : HashmapTx}
      → commits ≡ true
      → contents m key ≡ some old
      → IsSameMap (removed m key) m'
      → Removes commits m key (old, m')
  Removes-removed c there same = record {
    returns = rw (c, there);
    valid = same.valid;
    count = rw (c, there) (omega (arith, same.count, (count-removed there).0));
    reads = λ q. same.reads q ∙ rw c (contents-removed q);
    untouched = elim [ inl off ↦ cc | inr absent ↦ cc ];
  }

  Removes-nothing :
      {commits : Bool}
      → (commits ≡ false) ⊎ (contents m key ≡ none)
      → Removes commits m key (oid_null, m)
  Removes-nothing h = record {
    returns = ground arith;
    valid = v;
    count = ground arith;
    reads = λ q. ground (arith, ap (contents m) {x = key} {y = q});
    untouched = λ _. refl;
  }

-- `hm_tx_remove` of a valid map does not fault and keeps the invariant. If its transaction commits
-- and the key is there, it returns the key's value, the key is gone, the count is one less and every
-- other key reads as before, whether or not the table was rebuilt; otherwise it returns OID_NULL and
-- the map is untouched.
pub hm_tx_remove_lem :
    (commits rebuilds : Bool) (m : HashmapTx) (key : ℕ)
    → IsValid m
    → (r : PmemOid × HashmapTx) × (hm_tx_remove commits rebuilds m key ≡ some r)
      × Removes commits m key r
unfolding hm_tx_remove removed
hm_tx_remove_lem commits rebuilds m key v =
    let (hashed, row) = hash_valid key v in
    elim (Option-cases (contents m key)) [
      | inl absent ↦ (
        (oid_null, m),
        rw (hashed, row, ◌>>=◌, unlink_absent m key v absent),
        Removes-nothing m key v (inr absent),
      )
      | inr (old, there) ↦ elim (Bool-cases commits) [
        | inl c ↦
            let (m', run, same) =
              shrink_lem rebuilds (removed m key) (removed-IsValid m key v there) in
            (
              (old, m'),
              rw (hashed, row, ◌>>=◌, unlink_there m key v there, c, run),
              Removes-removed m key v c there same,
            )
        | inr c ↦ (
          (oid_null, m),
          rw (hashed, row, ◌>>=◌, unlink_there m key v there, c),
          Removes-nothing m key v (inl c),
        )
      ]
    ]
