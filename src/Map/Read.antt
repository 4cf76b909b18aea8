-- ===== src/Map/Read.antt =====
-- src/map/hashmap_tx.c: the operations that read the hash map, and the command interface.
use pmem_rts_cache.Common.{
  ℕ, zero, suc, ◌+◌, Bool, true, false, Option, some, List, [], ◌∷◌, ◌++◌, ◌==◌, if◌then◌else◌,
  ◌>>=◌, get_elem?, length, ◌||◌, not,
}
use mathlib.Core.List
use pmem_rts_cache.Pmem.{PmemOid, oid_null, oid_is_null}
use pmem_rts_cache.Map.Table.{Entry, Chain, HashmapTx, Buckets, hash, hm_tx_rebuild}

-- The loop of `hm_tx_get`.
unfoldable pub get_in : ℕ → Chain → PmemOid
get_in key [] = oid_null
get_in key (var ∷ vars) = if var.key == key then var.value else get_in key vars

unfoldable pub hm_tx_get : HashmapTx → ℕ → Option PmemOid
unfolding get_in
hm_tx_get m key = do
  h ← hash m m.buckets key
  chain ← get_elem? m.buckets.bucket h
  some (get_in key chain)

-- The loop of `hm_tx_lookup`.
unfoldable pub lookup_in : ℕ → Chain → Bool
lookup_in key [] = false
lookup_in key (var ∷ vars) = if var.key == key then true else lookup_in key vars

unfoldable pub hm_tx_lookup : HashmapTx → ℕ → Option Bool
unfolding lookup_in
hm_tx_lookup m key = do
  h ← hash m m.buckets key
  chain ← get_elem? m.buckets.bucket h
  some (lookup_in key chain)

unfoldable pub hm_tx_count : HashmapTx → ℕ
hm_tx_count m = m.count

-- `hm_tx_init`: what it seeds `rand()` with, and its result.
abbrev pub hm_tx_init : HashmapTx → ℕ × ℕ
hm_tx_init m = (m.seed, 0)

-- The inner loop of `hm_tx_foreach`: `cb` takes and returns the state that `arg` points to, and the
-- loop ends at the first result that is not zero. `ret` is what the last call returned.
module _ {S : Type 0} (cb : ℕ → PmemOid → S → ℕ × S) where
  unfoldable pub visit_chain : Chain → ℕ × S → ℕ × S
  visit_chain [] (ret, s) = (ret, s)
  visit_chain (var ∷ vars) (ret, s) =
      let (ret', s') = cb var.key var.value s in
      let rest = visit_chain vars (ret', s') in if ret' == 0 then rest else (ret', s')

  -- The `for` of `hm_tx_foreach` at index `i`, with `left` rounds to go.
  unfoldable pub visit_buckets : Buckets → ℕ → ℕ → ℕ × S → Option (ℕ × S)
  unfolding visit_chain
  visit_buckets bs zero i r = some r
  visit_buckets bs (suc left) i r = do
    chain ← get_elem? bs.bucket i
    visit_buckets bs left (i + 1) (visit_chain chain r)

  unfoldable pub hm_tx_foreach : HashmapTx → S → Option (ℕ × S)
  hm_tx_foreach m s = visit_buckets m.buckets m.buckets.nbuckets 0 (0, s)

-- A line that `hm_tx_debug` prints.
pub data DebugLine : Type 0 where
  coefficients : ℕ → ℕ → ℕ → DebugLine
  totals : ℕ → ℕ → DebugLine
  row : ℕ → List ℕ → ℕ → DebugLine

-- The line of bucket `i`; an empty bucket has none.
abbrev pub debug_row : ℕ → Chain → List DebugLine
debug_row i [] = []
debug_row i (e ∷ es) = row i (List.map (λ (en : Entry). en.key) (e ∷ es)) (length (e ∷ es)) ∷ []

unfoldable pub debug_rows : Buckets → ℕ → ℕ → Option (List DebugLine)
debug_rows bs zero i = some []
debug_rows bs (suc left) i = do
  chain ← get_elem? bs.bucket i
  rest ← debug_rows bs left (i + 1)
  some (debug_row i chain ++ rest)

unfoldable pub hm_tx_debug : HashmapTx → Option (List DebugLine)
unfolding debug_rows
hm_tx_debug m = do
  rows ← debug_rows m.buckets m.buckets.nbuckets 0
  some (
      coefficients m.hash_fun_a m.hash_fun_b m.hash_fun_p
      ∷ totals m.count m.buckets.nbuckets
      ∷ rows)

-- What `hm_tx_cmd` returns: 0 and -EINVAL.
pub data Command : Type 0 where
  done invalid : Command

-- `hm_tx_cmd`: the result, the map after it and the lines printed.
unfoldable pub hm_tx_cmd : Bool → HashmapTx → ℕ → ℕ → Option (Command × HashmapTx × List DebugLine)
hm_tx_cmd rebuilds m cmd arg =
    if cmd == 0
    then (do m' ← hm_tx_rebuild rebuilds m arg; some (done, m', []))
    else if cmd == 1
    then (if arg == 0
        then some (invalid, m, [])
        else (do lines ← hm_tx_debug m; some (done, m, lines)))
    else some (invalid, m, [])

-- `hm_tx_check`: true for no instance of a hash map. `type_num` is `pmemobj_type_num` of the object
-- and `expected` the type number of `struct hashmap_tx`.
unfoldable pub hm_tx_check : (PmemOid → ℕ) → ℕ → PmemOid → Bool
hm_tx_check type_num expected hashmap = oid_is_null hashmap || not (expected == type_num hashmap)
