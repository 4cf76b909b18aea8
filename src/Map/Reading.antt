-- ===== src/Map/Reading.antt =====
-- src/map/hashmap_tx.c: the operations that only read the map.
use mathlib.Core.Option
use native.Mathlib.Nat.{add-zero, zero-add}
use pmem_rts_cache.Common.{
  ℕ, suc, ◌+◌, ◌≡◌, refl, sym, ◌∙◌, ap, subst, Bool, true, false, Option, none, some, List, [], ◌∷◌,
  ◌++◌, flatten, length, get_elem?, arith,
}
use pmem_rts_cache.Pmem.{PmemOid, oid_null}
use pmem_rts_cache.Map.Table.{Chain, Buckets, HashmapTx}
use pmem_rts_cache.Map.Read.{
  hm_tx_get, lookup_in, hm_tx_lookup, hm_tx_count, visit_chain, visit_buckets, hm_tx_foreach,
}
use pmem_rts_cache.Map.Chains.{find, get_in_lem}
use pmem_rts_cache.Map.Rows.{view}
use pmem_rts_cache.Map.Invariant.{IsValid, contents, hash_valid, row_of}

-- `hm_tx_get` of a valid map does not fault, and returns the key's value, or OID_NULL where the key
-- is not there.
pub hm_tx_get_lem :
    (m : HashmapTx) (key : ℕ)
    → IsValid m
    → hm_tx_get m key ≡ some (Option.get_or (contents m key) oid_null)
unfolding hm_tx_get view
hm_tx_get_lem m key v =
    let (hashed, read) = hash_valid key v in rw (hashed, read, get_in_lem key (row_of m key))

abbrev pub is_some : Option PmemOid → Bool
is_some none = false
is_some (some _) = true

lookup_in-is_some : (q : ℕ) (c : Chain) → lookup_in q c ≡ is_some (find q c)
unfolding lookup_in find
lookup_in-is_some q [] = refl
lookup_in-is_some q (e ∷ c) = ground (arith, lookup_in-is_some q c)

-- `hm_tx_lookup` of a valid map does not fault, and says whether the key is there.
pub hm_tx_lookup_lem :
    (m : HashmapTx) (key : ℕ) → IsValid m → hm_tx_lookup m key ≡ some (is_some (contents m key))
unfolding hm_tx_lookup view
hm_tx_lookup_lem m key v =
    let (hashed, read) = hash_valid key v in rw (hashed, read, lookup_in-is_some key (row_of m key))

module _ {S : Type 0} (cb : ℕ → PmemOid → S → ℕ × S) where
  -- Rows one after the other, each until the callback first returns a nonzero value in it.
  unfoldable pub visit_rows : List Chain → ℕ × S → ℕ × S
  visit_rows [] r = r
  visit_rows (c ∷ rows) r = visit_rows rows (visit_chain cb c r)

  visit_buckets-rows :
      (bs : Buckets) (rows : List Chain) (i : ℕ) (r : ℕ × S)
      → ((j : ℕ) → get_elem? bs.bucket (i + j) ≡ get_elem? rows j)
      → visit_buckets cb bs (length rows) i r ≡ some (visit_rows rows r)
  unfolding visit_buckets visit_rows
  visit_buckets-rows bs [] i r same = refl
  visit_buckets-rows bs (c ∷ rows) i r same = rw (
    rw add-zero at (same 0),
    visit_buckets-rows bs rows (i + 1) (visit_chain cb c r)
        (λ j. subst (λ k. get_elem? bs.bucket k ≡ get_elem? rows j) (omega arith) (same (suc j))),
  )

  pub hm_tx_foreach-rows :
      (m : HashmapTx) (s : S)
      → IsValid m
      → hm_tx_foreach cb m s ≡ some (visit_rows m.buckets.bucket (0, s))
  unfolding hm_tx_foreach
  hm_tx_foreach-rows m s v =
      subst (λ k. visit_buckets cb m.buckets k 0 (0, s) ≡ some (visit_rows m.buckets.bucket (0, s)))
        v.width (visit_buckets-rows m.buckets m.buckets.bucket 0 (0, s) (λ j. rw zero-add refl))

  -- The callback's state after all entries, in order.
  unfoldable pub visit_all : Chain → S → S
  visit_all [] s = s
  visit_all (e ∷ es) s = visit_all es (cb e.key e.value s).1

  module _ (quiet : (k : ℕ) (o : PmemOid) (s : S) → (cb k o s).0 ≡ 0) where
    visit_chain-all : (c : Chain) (s : S) → visit_chain cb c (0, s) ≡ (0, visit_all c s)
    unfolding visit_chain visit_all
    visit_chain-all [] s = refl
    visit_chain-all (e ∷ c) s =
        rw (quiet e.key e.value s) (visit_chain-all c (cb e.key e.value s).1)

    visit_all-append : (c d : Chain) (s : S) → visit_all (c ++ d) s ≡ visit_all d (visit_all c s)
    unfolding visit_all
    visit_all-append [] d s = refl
    visit_all-append (e ∷ c) d s = visit_all-append c d (cb e.key e.value s).1

    visit_rows-all :
        (rows : List Chain) (s : S) → visit_rows rows (0, s) ≡ (0, visit_all (flatten rows) s)
    unfolding visit_rows flatten visit_all
    visit_rows-all [] s = refl
    visit_rows-all (c ∷ rows) s =
        rw (visit_chain-all c s, visit_rows-all rows (visit_all c s), visit_all-append)

    -- With a callback that always returns zero, `hm_tx_foreach` of a valid map returns zero and
    -- calls it once for each entry, bucket by bucket; `hm_tx_count` is the number of those calls.
    pub hm_tx_foreach_lem :
        (m : HashmapTx) (s : S)
        → IsValid m
        → (hm_tx_foreach cb m s ≡ some (0, visit_all (flatten m.buckets.bucket) s))
          × (hm_tx_count m ≡ length (flatten m.buckets.bucket))
    unfolding hm_tx_count
    hm_tx_foreach_lem m s v =
        (hm_tx_foreach-rows m s v ∙ ap some (visit_rows-all m.buckets.bucket s), sym v.counted)

-- How many rows have an entry.
unfoldable pub filled : List Chain → ℕ
filled [] = 0
filled ([] ∷ rows) = filled rows
filled ((e ∷ c) ∷ rows) = suc (filled rows)

-- A callback that counts its calls, and asks to stop at every one.
abbrev pub stop_at_once : ℕ → PmemOid → ℕ → ℕ × ℕ
stop_at_once k o n = (1, n + 1)

stopping :
    (rows : List Chain) (ret n : ℕ) → (visit_rows stop_at_once rows (ret, n)).1 ≡ n + filled rows
unfolding visit_rows visit_chain filled
stopping [] ret n = omega arith
stopping ([] ∷ rows) ret n = stopping rows ret n
stopping ((e ∷ c) ∷ rows) ret n = omega (arith, stopping rows 1 (n + 1))

-- A nonzero result of the callback does not end `hm_tx_foreach` of a valid map: it ends the row, and
-- a callback that asks to stop at every call is called once for each row that has an entry.
pub hm_tx_foreach-stop_at_once :
    (m : HashmapTx)
    → IsValid m
    → (ret : ℕ) × (hm_tx_foreach stop_at_once m 0 ≡ some (ret, filled m.buckets.bucket))
hm_tx_foreach-stop_at_once m v =
    let r = visit_rows stop_at_once m.buckets.bucket (0, 0) in
    (
      r.0,
      hm_tx_foreach-rows stop_at_once m 0 v
          ∙ ap (λ (k : ℕ). some (r.0, k))
              (stopping m.buckets.bucket 0 0 ∙ zero-add (filled m.buckets.bucket)),
    )
