-- ===== src/Map/Interface.antt =====
-- src/map/hashmap_tx.h and src/map/hashmap.h: the interface of the hash map, what a client may rely on, and
-- the hash map as one implementation.
use mathlib.Core.Option
use pmem_rts_cache.Common.{
  ℕ, ◌+◌, ◌<◌, ◌≤◌, ◌≡◌, refl, ◌∙◌, Bool, ◌&&◌, Option, none, some, List, ◌==◌, if◌then◌else◌,
  ◌>>=◌, true, Bool-cases, ==_self, inl, inr, arith,
}
use pmem_rts_cache.Pmem.{PmemOid, oid_null, u64_mod}
use pmem_rts_cache.Map.Table.{HashmapTx}
use pmem_rts_cache.Map.Update.{Inserted, ok, hm_tx_insert, hm_tx_remove, Created, hm_tx_create}
use pmem_rts_cache.Map.Read.{
  hm_tx_get, hm_tx_lookup, hm_tx_count, hm_tx_init, hm_tx_foreach, hm_tx_check, hm_tx_cmd, Command,
  DebugLine,
}
use pmem_rts_cache.Map.Invariant.{IsValid, contents}
use pmem_rts_cache.Map.Insert.{insert_result, is_ok, hm_tx_insert_lem}
use pmem_rts_cache.Map.Remove.{hm_tx_remove_lem}
use pmem_rts_cache.Map.Reading.{is_some, hm_tx_get_lem, hm_tx_lookup_lem}

-- `struct hashmap_args`
pub record HashmapArgs : Type 0 where
  pub seed : ℕ

-- `enum hashmap_cmd`
pub data HashmapCmd : Type 0 where
  cmd_rebuild cmd_debug : HashmapCmd

abbrev pub cmd_number : HashmapCmd → ℕ
cmd_number cmd_rebuild = 0
cmd_number cmd_debug = 1

-- `args ? args->seed : 0` of `hm_tx_create`
abbrev pub seed_of : Option HashmapArgs → ℕ
seed_of none = 0
seed_of (some args) = args.seed

-- The functions that the header declares. The two truth values that `insert` and `remove` take, and
-- those of `create`, are what libpmemobj decides about their transactions.
pub record MapOps (M : Type 0) : Type 1 where
  pub check : (PmemOid → ℕ) → ℕ → PmemOid → Bool
  pub create : Bool → Bool → Option HashmapArgs → List ℕ → Option (Created × List ℕ)
  pub hm_init : M → ℕ × ℕ
  pub insert : Bool → Bool → M → ℕ → PmemOid → Option (Inserted × M)
  pub remove : Bool → Bool → M → ℕ → Option (PmemOid × M)
  pub get : M → ℕ → Option PmemOid
  pub lookup : M → ℕ → Option Bool
  pub foreach : {S : Type 0} → (ℕ → PmemOid → S → ℕ × S) → M → S → Option (ℕ × S)
  pub count : M → ℕ
  pub cmd : Bool → M → ℕ → ℕ → Option (Command × M × List DebugLine)

abbrev pub hashmap_tx : MapOps HashmapTx
hashmap_tx = record {
  check = hm_tx_check;
  create = λ allocates commits args rands. hm_tx_create allocates commits (seed_of args) rands;
  hm_init = hm_tx_init;
  insert = hm_tx_insert;
  remove = hm_tx_remove;
  get = hm_tx_get;
  lookup = hm_tx_lookup;
  foreach = hm_tx_foreach;
  count = hm_tx_count;
  cmd = hm_tx_cmd;
}

-- What a client of the header may rely on: a map with an invariant reads as an abstract map, and each
-- call does to that what its name says, or nothing where its transaction aborts.
pub record IsMap {M : Type 0} (o : MapOps M) : Type 1 where
  pub Valid : M → Type 0
  pub view : M → ℕ → Option PmemOid
  pub get_law :
      (m : M) (key : ℕ) → Valid m → o.get m key ≡ some (Option.get_or (view m key) oid_null)
  pub lookup_law : (m : M) (key : ℕ) → Valid m → o.lookup m key ≡ some (is_some (view m key))
  pub insert_law :
      (commits rebuilds : Bool) (m : M) (key : ℕ) (value : PmemOid)
      → Valid m
      → o.count m + 1 < u64_mod
      → (r : Inserted × M) × (o.insert commits rebuilds m key value ≡ some r)
        × Valid r.1
        × (r.0 ≡ insert_result commits (view m key))
        × ((q : ℕ) → view r.1 q ≡ (if is_ok r.0 && key == q then some value else view m q))
  pub remove_law :
      (commits rebuilds : Bool) (m : M) (key : ℕ)
      → Valid m
      → (r : PmemOid × M) × (o.remove commits rebuilds m key ≡ some r)
        × Valid r.1
        × (o.count r.1 ≤ o.count m)
        × (r.0 ≡ (if commits then Option.get_or (view m key) oid_null else oid_null))
        × ((q : ℕ) → view r.1 q ≡ (if commits && key == q then none else view m q))

-- The hash map keeps to that.
pub hashmap_tx-IsMap : IsMap hashmap_tx
unfolding hm_tx_count
hashmap_tx-IsMap = record {
  Valid = IsValid;
  view = contents;
  get_law = hm_tx_get_lem;
  lookup_law = hm_tx_lookup_lem;
  insert_law = λ commits rebuilds m key value v room.
      let (r, ran, ins) = hm_tx_insert_lem commits rebuilds m key value v room in
      (r, ran, ins.valid, ins.returns, ins.reads);
  remove_law = λ commits rebuilds m key v.
      let (r, ran, rem) = hm_tx_remove_lem commits rebuilds m key v in
      (r, ran, rem.valid, omega (arith, rem.count), rem.returns, rem.reads);
}

module _ {M : Type 0} (o : MapOps M) (l : IsMap o) where
  -- A client that gives a key another value: the old entry goes before the new one comes.
  unfoldable pub replace : M → ℕ → PmemOid → Option (PmemOid × M)
  replace m key value = do
    (old, m1) ← o.remove true true m key
    (done, m2) ← o.insert true true m1 key value
    some (old, m2)

  -- On any map that keeps to its interface and has room for one more entry, a removal and an insertion
  -- that commit give the key its new value and leave every other key.
  pub replace_lem :
      (m : M) (key : ℕ) (value : PmemOid)
      → l.Valid m
      → o.count m + 1 < u64_mod
      → (m' : M) × (replace m key value ≡ some (Option.get_or (l.view m key) oid_null, m'))
        × l.Valid m'
        × ((q : ℕ) → l.view m' q ≡ (if key == q then some value else l.view m q))
  unfolding replace
  replace_lem m key value v room =
      let (r, ran, v1, fewer, old, gone) = l.remove_law true true m key v in
      let (r', ran', v2, result, reads) =
        l.insert_law true true r.1 key value v1 (omega (arith, fewer, room)) in
      let none_left : l.view r.1 key ≡ none = gone key ∙ rw (==_self key) refl in
      let made : r'.0 ≡ ok = result ∙ rw none_left refl in
      (
        r'.1,
        rw (ran, ran', old) refl,
        v2,
        λ q. reads q ∙ elim (Bool-cases (key == q)) [
          | inl e ↦ rw (made, e) refl
          | inr e ↦ rw (made, e) (gone q ∙ rw e refl)
        ],
      )
