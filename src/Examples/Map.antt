-- ===== src/Examples/Map.antt =====
-- src/map/hashmap_tx.c on a table of two rows with the keys 5 and 6.
use pmem_rts_cache.Common.{
  ◌^◌, ◌*◌, none, ℕ, zero, suc, ◌+◌, ◌≤◌, ◌≡◌, refl, true, false, some, none, List, [], ◌∷◌, ◌==◌,
  if◌then◌else◌, flatten, length, arith, ◌&&◌, leb,
}
use pmem_rts_cache.Pmem.{PmemOid}
use pmem_rts_cache.Pmem.{max_alloc_size}
use pmem_rts_cache.Map.Table.{
  hash_func_coeff_p, buckets_size, rebuilt_len, Chain, HashmapTx, hash_func_coeff_p, hm_tx_rebuild,
}
use pmem_rts_cache.Map.Update.{hm_tx_insert, hm_tx_remove, hm_tx_create}
use pmem_rts_cache.Map.Chains.{occurs}
use pmem_rts_cache.Map.Rows.{IsPlaced}
use pmem_rts_cache.Map.Invariant.{IsValid, IsSameMap, home, contents}
use pmem_rts_cache.Map.Update.{Inserted, created}
use pmem_rts_cache.Map.Read.{hm_tx_count, hm_tx_foreach}
use pmem_rts_cache.Map.Rebuild.{hm_tx_rebuild-overflow, hm_tx_rebuild_lem}
use pmem_rts_cache.Map.Insert.{Inserts, hm_tx_insert_lem}
use pmem_rts_cache.Map.Remove.{Removes, hm_tx_remove_lem}
use pmem_rts_cache.Map.Creating.{hm_tx_create_lem}
use pmem_rts_cache.Map.Reading.{visit_all, hm_tx_foreach_lem}
use pmem_rts_cache.Map.History.{
  Call, insert, remove, get, lookup, rebuild, run, spec_run, map_run_refines,
}

abbrev value : ℕ → PmemOid
value n = record { pool_uuid_lo = 1; off = n }

abbrev two_rows : List Chain
two_rows =
    (record { key = 6; value = value 60 } ∷ []) ∷ (record { key = 5; value = value 50 } ∷ []) ∷ []

abbrev two_keys : HashmapTx
two_keys = record {
  seed = 0;
  hash_fun_a = 3;
  hash_fun_b = 4;
  hash_fun_p = hash_func_coeff_p;
  count = 2;
  buckets = record { nbuckets = 2; bucket = two_rows };
}

placed_in_row :
    (h k i : ℕ) (q : ℕ) (o : PmemOid)
    → (q ≡ k → h ≡ i)
    → occurs q (record { key = k; value = o } ∷ []) ≤ (if h == i then 1 else 0)
unfolding occurs
placed_in_row h k i q o e = ground (arith, e)

home_of_five : (q : ℕ) → q ≡ 5 → home two_keys 2 q ≡ 1
unfolding home
home_of_five q e = omega arith

home_of_six : (q : ℕ) → q ≡ 6 → home two_keys 2 q ≡ 0
unfolding home
home_of_six q e = omega arith

two_rows-IsPlaced : IsPlaced (home two_keys 2) two_rows
unfolding occurs
two_rows-IsPlaced q zero = placed_in_row (home two_keys 2 q) 6 0 q (value 60) (home_of_six q)
two_rows-IsPlaced q (suc zero) = placed_in_row (home two_keys 2 q) 5 1 q (value 50) (home_of_five q)
two_rows-IsPlaced q (suc (suc i)) = omega arith

two_keys-IsValid : IsValid two_keys
unfolding flatten
two_keys-IsValid = record {
  width = refl;
  pos = omega arith;
  small = omega arith;
  prime = refl;
  scale = (omega arith, omega arith, omega arith);
  counted = refl;
  counts = omega arith;
  placed = two_rows-IsPlaced;
}

hm_tx_insert_lem_example :
    (r : Inserted × HashmapTx) × (hm_tx_insert true true two_keys 7 (value 70) ≡ some r)
    × Inserts true two_keys 7 (value 70) r
hm_tx_insert_lem_example =
    hm_tx_insert_lem true true two_keys 7 (value 70) two_keys-IsValid (omega arith)

hm_tx_remove_lem_example :
    (r : PmemOid × HashmapTx) × (hm_tx_remove true true two_keys 5 ≡ some r)
    × Removes true two_keys 5 r
hm_tx_remove_lem_example = hm_tx_remove_lem true true two_keys 5 two_keys-IsValid

hm_tx_rebuild_lem_example :
    (m' : HashmapTx) × (hm_tx_rebuild true two_keys 4 ≡ some m')
    × IsSameMap two_keys m'
    × (m'.buckets.nbuckets ≡ (
        if true && leb (buckets_size (rebuilt_len two_keys 4)) max_alloc_size
        then rebuilt_len two_keys 4
        else 2))
hm_tx_rebuild_lem_example = hm_tx_rebuild_lem true two_keys 4 two_keys-IsValid (omega arith)

hm_tx_create_lem_example :
    (m : HashmapTx) × (hm_tx_create true true 9 (0 ∷ 3 ∷ 4 ∷ 8 ∷ []) ≡ some (created m, 8 ∷ []))
    × IsValid m
    × (m.seed ≡ 9)
    × (m.count ≡ 0)
    × (m.hash_fun_a ≡ 3)
    × (m.hash_fun_b ≡ 4)
    × (m.hash_fun_p ≡ hash_func_coeff_p)
    × ((q : ℕ) → contents m q ≡ none)
hm_tx_create_lem_example = hm_tx_create_lem 9 (0 ∷ []) 3 4 (8 ∷ []) (omega arith) (omega arith)

-- A callback that adds up the keys.
abbrev add_key : ℕ → PmemOid → ℕ → ℕ × ℕ
add_key k o s = (0, s + k)

hm_tx_foreach_lem_example :
    (hm_tx_foreach add_key two_keys 0 ≡ some (0, visit_all add_key (flatten two_rows) 0))
    × (hm_tx_count two_keys ≡ length (flatten two_rows))
hm_tx_foreach_lem_example = hm_tx_foreach_lem add_key (λ k o s. refl) two_keys 0 two_keys-IsValid

-- `HASHMAP_CMD_DEBUG`
abbrev debug_command : ℕ
debug_command = 1

abbrev six_calls : List Call
six_calls =
    insert true true 7 (value 70)
    ∷ get 5
    ∷ remove true true 5
    ∷ lookup 5
    ∷ rebuild true 8
    ∷ insert false true 9 (value 90)
    ∷ []

map_run_refines_example : run two_keys six_calls ≡ some (spec_run (contents two_keys) six_calls)
map_run_refines_example =
    map_run_refines six_calls two_keys (contents two_keys) two_keys-IsValid (omega arith)
      (omega arith) (λ q. refl)

hm_tx_rebuild-overflow_example : hm_tx_rebuild true two_keys (1 * 2 ^ 60) ≡ none
hm_tx_rebuild-overflow_example =
    hm_tx_rebuild-overflow two_keys 1 two_keys-IsValid (omega arith) (omega arith)
