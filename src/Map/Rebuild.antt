-- ===== src/Map/Rebuild.antt =====
-- src/map/hashmap_tx.c: `hm_tx_rebuild` moves every entry to its new row and loses none.
use pmem_rts_cache.Common.{
  ℕ, zero, suc, ◌+◌, ◌-◌, ◌*◌, ◌/◌, ◌%◌, ◌^◌, ◌≤◌, ◌<◌, ◌≡◌, ◌≢◌, refl, ◌∙◌, ap, subst, Bool, true,
  false, ◌&&◌, none, some, List, [], ◌∷◌, flatten, leb, length, arith, if◌then◌else◌, get_elem?,
  get_or, get_elem?-eq-get_or, replicate, length-replicate, length-set, get_or-replicate,
  Bool-cases, Option-cases, Option-cases, inl, inr, ◌==◌,
}
use native.Mathlib.Nat.{add-zero, zero-add}
use pmem_rts_cache.Pmem.{u64_mod, max_alloc_size}
use pmem_rts_cache.Map.Table.{
  Entry, Chain, HashmapTx, Buckets, hash, move_chain, move_buckets, zalloc_buckets, buckets_size,
  rebuilt_len, hm_tx_rebuild,
}
use pmem_rts_cache.Map.Chains.{find, occurs, or_else-none}
use pmem_rts_cache.Map.Rows.{
  IsPlaced, view, push_all, push_all-append, length-push_all, occurs-push_all, view-push_all,
  length-flatten-push_all, flatten-view,
}
use pmem_rts_cache.Map.Invariant.{home, home-lt, hash-home, IsValid, IsSameMap}

-- The `while` loop does not fault and pushes the chain, entry by entry.
move_chain-push_all :
    (m : HashmapTx) (es : Chain) (new : Buckets)
    → m.hash_fun_p ≢ 0
    → 0 < new.nbuckets
    → length new.bucket ≡ new.nbuckets
    → move_chain m es new
      ≡ some (record new { bucket = push_all (home m new.nbuckets) es new.bucket })
unfolding move_chain push_all
move_chain-push_all m [] new p pos w = refl
move_chain-push_all m (e ∷ es) new p pos w =
    rw
      (
        hash-home m new e.key p pos,
        get_elem?-eq-get_or new.bucket (home m new.nbuckets e.key) []
            (omega (arith, home-lt m new.nbuckets e.key pos)),
      )
      (move_chain-push_all m es _ p pos (length-set new.bucket _ _ ∙ w))

move_buckets-push_all :
    (m : HashmapTx) (old : Buckets) (rows : List Chain) (i : ℕ) (new : Buckets)
    → m.hash_fun_p ≢ 0
    → 0 < new.nbuckets
    → length new.bucket ≡ new.nbuckets
    → ((j : ℕ) → get_elem? old.bucket (i + j) ≡ get_elem? rows j)
    → move_buckets m old (length rows) i new
      ≡ some (record new { bucket = push_all (home m new.nbuckets) (flatten rows) new.bucket })
unfolding move_buckets push_all flatten
move_buckets-push_all m old [] i new p pos w same = refl
move_buckets-push_all m old (c ∷ rows) i new p pos w same = rw (
  rw add-zero at (same 0),
  move_chain-push_all m c new p pos w,
  move_buckets-push_all m old rows (i + 1) _ p pos
      (length-push_all (home m new.nbuckets) c new.bucket ∙ w)
      (λ j. subst (λ k. get_elem? old.bucket k ≡ get_elem? rows j) (omega arith) (same (suc j))),
  push_all-append (home m new.nbuckets),
)

flatten-replicate : (n : ℕ) → flatten (replicate {A = Chain} n []) ≡ []
unfolding replicate flatten
flatten-replicate zero = refl
flatten-replicate (suc n) = flatten-replicate n

module _ (old new : ℕ → ℕ) (n : ℕ) (new-lt : (q : ℕ) → new q < n) (rows : List Chain)
    (p : IsPlaced old rows) where
  empty : List Chain
  empty = replicate n []

  length-flatten-repush :
      length (flatten (push_all new (flatten rows) empty)) ≡ length (flatten rows)
  unfolding empty
  length-flatten-repush = omega (
    arith,
    length-flatten-push_all new n new-lt (flatten rows) empty (length-replicate n []),
    ap (length {A = Entry}) (flatten-replicate n),
  )

  repush-IsPlaced : IsPlaced new (push_all new (flatten rows) empty)
  unfolding empty occurs
  repush-IsPlaced q i =
      rw
        (
          occurs-push_all new n new-lt (flatten rows) (replicate n []) q i (length-replicate n []),
          get_or-replicate {A = Chain} n i [],
        )
        (ground (arith, flatten-view old rows q p))

  view-repush : (q : ℕ) → view new (push_all new (flatten rows) empty) q ≡ view old rows q
  unfolding empty
  view-repush q =
      let (found, few) = flatten-view old rows q p in
      let here : view new (replicate n []) q ≡ none =
        unfold view find in rw (get_or-replicate {A = Chain} n (new q) []) in
      let none_yet : occurs q (get_or (replicate {A = Chain} n []) (new q) []) ≡ 0 =
        unfold occurs in rw (get_or-replicate {A = Chain} n (new q) []) in
      rw
        (
          view-push_all new n new-lt (flatten rows) (replicate n []) q (length-replicate n [])
              (omega arith),
          here,
          or_else-none,
        )
        found

-- `m` with its entries moved to `n` rows.
unfoldable pub rebuilt : HashmapTx → ℕ → HashmapTx
rebuilt m n = record m {
  buckets = record {
    nbuckets = n;
    bucket = push_all (home m n) (flatten m.buckets.bucket) (replicate n []);
  };
}

rebuilt-IsSameMap :
    (m : HashmapTx) (n : ℕ) → IsValid m → 0 < n → n ≤ 2 ^ 30 → IsSameMap m (rebuilt m n)
unfolding rebuilt home empty
rebuilt-IsSameMap m n v pos small = record {
  valid = record {
    width = length-push_all _ _ _ ∙ length-replicate n [];
    pos = pos;
    small = small;
    prime = v.prime;
    scale = v.scale;
    counted =
        length-flatten-repush (home m m.buckets.nbuckets) (home m n) n (λ q. home-lt m n q pos)
          m.buckets.bucket v.placed
        ∙ v.counted;
    counts = v.counts;
    placed =
        repush-IsPlaced (home m m.buckets.nbuckets) (home m n) n (λ q. home-lt m n q pos)
          m.buckets.bucket v.placed;
  };
  count = refl;
  reads =
      view-repush (home m m.buckets.nbuckets) (home m n) n (λ q. home-lt m n q pos) m.buckets.bucket
        v.placed;
}

-- The table that `hm_tx_rebuild` leaves behind.
unfoldable pub after_rebuild : Bool → HashmapTx → ℕ → HashmapTx
after_rebuild commits m new_len =
    let n = rebuilt_len m new_len in
    if commits && leb (buckets_size n) max_alloc_size then rebuilt m n else m

rebuilt-run :
    (m : HashmapTx) (n : ℕ)
    → IsValid m
    → 0 < n
    → n < 2 ^ 59
    → move_buckets m m.buckets m.buckets.nbuckets 0 (zalloc_buckets (buckets_size n) n)
      ≡ some ((rebuilt m n).buckets)
unfolding zalloc_buckets rebuilt
rebuilt-run m n v pos small =
    let room : (buckets_size n - 8) / 16 ≡ n = omega arith in
    rw room (
      subst
        (λ k.
          move_buckets m m.buckets k 0 (record { nbuckets = n; bucket = replicate n [] })
          ≡ some ((rebuilt m n).buckets))
        v.width
        (move_buckets-push_all m m.buckets m.buckets.bucket 0
          (record { nbuckets = n; bucket = replicate n [] }) (omega arith) pos
          (length-replicate n []) (λ j. rw zero-add refl)))

rebuilt_len-bounds :
    (m : HashmapTx) (new_len : ℕ)
    → IsValid m
    → new_len < 2 ^ 59
    → (0 < rebuilt_len m new_len) × (rebuilt_len m new_len < 2 ^ 59)
rebuilt_len-bounds m new_len v h = ground arith

-- `hm_tx_rebuild` of a valid map does not fault, for any length below 2 ^ 59.
hm_tx_rebuild-run :
    (commits : Bool) (m : HashmapTx) (new_len : ℕ)
    → IsValid m
    → new_len < 2 ^ 59
    → hm_tx_rebuild commits m new_len ≡ some (after_rebuild commits m new_len)
unfolding hm_tx_rebuild after_rebuild
hm_tx_rebuild-run commits m new_len v h =
    let (pos, fits) = rebuilt_len-bounds m new_len v h in
    elim (Bool-cases (commits && leb (buckets_size (rebuilt_len m new_len)) max_alloc_size)) [
      | inl e ↦ rw (e, rebuilt-run m (rebuilt_len m new_len) v pos fits) (unfold rebuilt in refl)
      | inr e ↦ rw e
    ]

IsSameMap-refl : (m : HashmapTx) → IsValid m → IsSameMap m m
IsSameMap-refl m v = record { valid = v; count = refl; reads = λ q. refl }

after_rebuild-IsSameMap :
    (commits : Bool) (m : HashmapTx) (new_len : ℕ)
    → IsValid m
    → new_len < 2 ^ 59
    → IsSameMap m (after_rebuild commits m new_len)
unfolding after_rebuild
after_rebuild-IsSameMap commits m new_len v h =
    let (pos, fits) = rebuilt_len-bounds m new_len v h in
    elim (Bool-cases (commits && leb (buckets_size (rebuilt_len m new_len)) max_alloc_size)) [
      | inl e ↦ rw e (rebuilt-IsSameMap m (rebuilt_len m new_len) v pos (ground arith))
      | inr e ↦ rw e (IsSameMap-refl m v)
    ]

-- Whatever the transaction does, `hm_tx_rebuild` of a valid map to any length below 2 ^ 59 is free of faults and leaves a valid table of the same map with the same count. If
-- the transaction commits and the allocation is within libpmemobj's limit, the table has the length
-- asked for, or its old length where zero is asked for; otherwise the table keeps its length.
pub hm_tx_rebuild_lem :
    (commits : Bool) (m : HashmapTx) (new_len : ℕ)
    → IsValid m
    → new_len < 2 ^ 59
    → (m' : HashmapTx) × (hm_tx_rebuild commits m new_len ≡ some m')
      × IsSameMap m m'
      × (m'.buckets.nbuckets ≡ (
          if commits && leb (buckets_size (rebuilt_len m new_len)) max_alloc_size
          then rebuilt_len m new_len
          else m.buckets.nbuckets))
hm_tx_rebuild_lem commits m new_len v h = (
  after_rebuild commits m new_len,
  hm_tx_rebuild-run commits m new_len v h,
  after_rebuild-IsSameMap commits m new_len v h,
  unfold after_rebuild rebuilt in ground arith,
)

-- No head is there to be written once the size in bytes has wrapped.
move_buckets-overflow :
    (m : HashmapTx) (old : Buckets) (rows : List Chain) (i n : ℕ)
    → ((j : ℕ) → get_elem? old.bucket (i + j) ≡ get_elem? rows j)
    → 0 < length (flatten rows)
    → move_buckets m old (length rows) i (record { nbuckets = n; bucket = [] }) ≡ none
unfolding move_buckets move_chain flatten
move_buckets-overflow m old [] i n same some_entry = absurd (omega arith)
move_buckets-overflow m old ([] ∷ rows) i n same some_entry = rw (rw add-zero at (same 0)) (
    move_buckets-overflow m old rows (i + 1) n
      (λ j. subst (λ k. get_elem? old.bucket k ≡ get_elem? rows j) (omega arith) (same (suc j)))
      some_entry)
move_buckets-overflow m old ((e ∷ c) ∷ rows) i n same some_entry =
    rw (rw add-zero at (same 0))
      (ground (arith, Option-cases (hash m (record { nbuckets = n; bucket = [] }) e.key)))

-- Where the requested length is a positive multiple of 2 ^ 60, its size in bytes wraps to that of an
-- empty table: `hm_tx_rebuild` of a valid map with an entry writes outside of the new table, once its
-- transaction runs.
pub hm_tx_rebuild-overflow :
    (m : HashmapTx) (k : ℕ)
    → IsValid m
    → 0 < m.count
    → 0 < k
    → hm_tx_rebuild true m (k * 2 ^ 60) ≡ none
unfolding hm_tx_rebuild zalloc_buckets replicate
hm_tx_rebuild-overflow m k v some_entry pos =
    let big : (k * 2 ^ 60 == 0) ≡ false = ground arith in
    let wrapped : (8 + k * 2 ^ 60 * 16) % u64_mod ≡ 8 = omega arith in
    let faults : move_buckets m m.buckets m.buckets.nbuckets 0
          (record { nbuckets = k * 2 ^ 60; bucket = [] })
        ≡ none =
      subst
        (λ w. move_buckets m m.buckets w 0 (record { nbuckets = k * 2 ^ 60; bucket = [] }) ≡ none)
        v.width
        (move_buckets-overflow m m.buckets m.buckets.bucket 0 (k * 2 ^ 60) (λ j. rw zero-add refl)
          (omega (arith, v.counted))) in
    rw (big, wrapped, faults)
