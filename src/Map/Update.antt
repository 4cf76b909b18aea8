-- ===== src/Map/Update.antt =====
-- src/map/hashmap_tx.c: the operations that change the hash map.
use pmem_rts_cache.Common.{
  ℕ, ◌+◌, ◌-◌, ◌*◌, ◌/◌, ◌%◌, Bool, ◌&&◌, ◌||◌, Option, none, some, List, [], ◌∷◌, ltb, ◌==◌,
  if◌then◌else◌, ◌>>=◌, get_elem?, set,
}
use pmem_rts_cache.Pmem.{PmemOid, oid_null, u64_mod, u32_mod}
use pmem_rts_cache.Map.Table.{
  Entry, Chain, HashmapTx, hash, hm_tx_rebuild, zalloc_buckets, buckets_size, hash_func_coeff_p,
  init_buckets_num, min_hashset_threshold, max_hashset_threshold,
}

-- What `hm_tx_insert` returns: 0, 1 and -1.
pub data Inserted : Type 0 where
  ok existed failed : Inserted

-- The first loop of `hm_tx_insert`: the entries passed, or `none` at an entry with the key.
unfoldable pub scan : ℕ → Chain → ℕ → Option ℕ
scan key [] num = some num
scan key (var ∷ vars) num = if var.key == key then none else scan key vars (num + 1)

-- The test after the transaction of `hm_tx_insert`.
abbrev pub needs_growth : ℕ → HashmapTx → ℕ → Bool
needs_growth num m nbuckets =
    ltb max_hashset_threshold num
    || ltb min_hashset_threshold num && ltb (2 * nbuckets % u64_mod) m.count

-- The transaction of `hm_tx_insert`: a new head for bucket `h`, whose entries are `chain`.
abbrev pub link : HashmapTx → ℕ → Chain → Entry → HashmapTx
link m h chain e = record m {
  count = (m.count + 1) % u64_mod;
  buckets = record m.buckets { bucket = set m.buckets.bucket h (e ∷ chain) };
}

-- `hm_tx_insert`, from the end of its transaction on.
unfoldable pub grow : Bool → HashmapTx → ℕ → Option HashmapTx
grow rebuilds m num =
    if needs_growth num m m.buckets.nbuckets
    then hm_tx_rebuild rebuilds m (m.buckets.nbuckets * 2 % u64_mod)
    else some m

unfoldable pub hm_tx_insert : Bool → Bool → HashmapTx → ℕ → PmemOid → Option (Inserted × HashmapTx)
hm_tx_insert commits rebuilds m key value = do
  h ← hash m m.buckets key
  chain ← get_elem? m.buckets.bucket h
  elim (scan key chain 0) [
    | none ↦ some (existed, m)
    | some num ↦
        if commits
        then (do
          m' ← grow rebuilds (link m h chain (record { key = key; value = value })) (num + 1)
          some (ok, m'))
        else some (failed, m)
  ]

-- The loop of `hm_tx_remove` and the writes to `bucket[h]` or `prev->next`: the value of the first
-- entry with the key, and the chain without that entry.
unfoldable pub unlink : ℕ → Chain → Option (PmemOid × Chain)
unlink key [] = none
unlink key (var ∷ vars) =
    if var.key == key
    then some (var.value, vars)
    else (do (retoid, rest) ← unlink key vars; some (retoid, var ∷ rest))

-- The transaction of `hm_tx_remove`.
abbrev pub cut : HashmapTx → ℕ → Chain → HashmapTx
cut m h rest = record m {
  count = (m.count + u64_mod - 1) % u64_mod;
  buckets = record m.buckets { bucket = set m.buckets.bucket h rest };
}

-- `hm_tx_remove`, from the end of its transaction on.
unfoldable pub shrink : Bool → HashmapTx → Option HashmapTx
shrink rebuilds m =
    if ltb m.count m.buckets.nbuckets
    then hm_tx_rebuild rebuilds m (m.buckets.nbuckets / 2)
    else some m

unfoldable pub hm_tx_remove : Bool → Bool → HashmapTx → ℕ → Option (PmemOid × HashmapTx)
hm_tx_remove commits rebuilds m key = do
  h ← hash m m.buckets key
  chain ← get_elem? m.buckets.bucket h
  elim (unlink key chain) [
    | none ↦ some (oid_null, m)
    | some (retoid, rest) ↦
        if commits
        then (do m' ← shrink rebuilds (cut m h rest); some (retoid, m'))
        else some (oid_null, m)
  ]

-- The `do … while` of `create_hashmap`: draws from the results that `rand()` has yet to give, until
-- one is not zero in 32 bits. `none`: the given results ran out.
unfoldable pub draw_nonzero : List ℕ → Option (ℕ × List ℕ)
draw_nonzero [] = none
draw_nonzero (r ∷ rs) = if r % u32_mod == 0 then draw_nonzero rs else some (r % u32_mod, rs)

-- One call of `rand()`, in 32 bits.
unfoldable pub draw : List ℕ → Option (ℕ × List ℕ)
draw [] = none
draw (r ∷ rs) = some (r % u32_mod, rs)

-- What `create_hashmap` stores.
abbrev pub fresh_map : ℕ → ℕ → ℕ → HashmapTx
fresh_map seed a b = record {
  seed = seed;
  hash_fun_a = a;
  hash_fun_b = b;
  hash_fun_p = hash_func_coeff_p;
  count = 0;
  buckets = zalloc_buckets (buckets_size init_buckets_num) init_buckets_num;
}

-- `hm_tx_create` returns 0, returns -1, or ends the process by the `abort()` of `create_hashmap`.
pub data Created : Type 0 where
  created : HashmapTx → Created
  not_created terminated : Created

-- `hm_tx_create`: `allocates` is whether TX_ZNEW succeeds, `commits` whether the transaction of
-- `create_hashmap` does. The rest of the results of `rand()` is handed on.
unfoldable pub hm_tx_create : Bool → Bool → ℕ → List ℕ → Option (Created × List ℕ)
hm_tx_create allocates commits seed rands =
    if allocates
    then (do
      (a, rs) ← draw_nonzero rands
      (b, rs') ← draw rs
      some ((if commits then created (fresh_map seed a b) else terminated), rs'))
    else some (not_created, rands)
