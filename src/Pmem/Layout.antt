-- ===== src/Pmem/Layout.antt =====
-- src/include/libpmemobj/types.h: the type numbers of persistent objects, and those that src/queue/queue.h,
-- src/map/hashmap_tx.h and src/cache/cache.h declare. An array type that only carries a number is its
-- length, and __COUNTER__ is the number of its expansions so far.
use pmem_rts_cache.Common.{ℕ, suc, ◌+◌, ◌-◌, ◌≡◌, ◌≢◌, refl, ap, ap₂, List, [], ◌∷◌, ◌++◌, arith}

-- `__COUNTER__`: what it expands to, and how often it has been expanded after that.
abbrev pub counter : ℕ → ℕ × ℕ
counter n = (n, n + 1)

-- TOID_DECLARE of a type with the number `i`: the length of its type `_type_num`.
abbrev pub toid_declare : ℕ → ℕ
toid_declare i = i + 1

-- TOID_TYPE_NUM and TOID_TYPE_NUM_OF
abbrev pub toid_type_num : ℕ → ℕ
toid_type_num type_num = type_num - 1

-- POBJ_ROOT_TYPE_NUM
abbrev pub root_type_num : ℕ
root_type_num = 0

-- POBJ_LAYOUT_BEGIN: the length of its type `_ref`.
abbrev pub layout_begin : ℕ → ℕ × ℕ
layout_begin n = let (c, n') = counter n in (c + 1, n')

-- POBJ_LAYOUT_TOID
abbrev pub layout_toid : ℕ → ℕ → ℕ × ℕ
layout_toid ref n = let (c, n') = counter n in (toid_declare (c + 1 - ref), n')

-- POBJ_LAYOUT_ROOT
abbrev pub layout_root : ℕ
layout_root = toid_declare root_type_num

-- POBJ_LAYOUT_END: the length of its type `_cnt`.
abbrev pub layout_end : ℕ → ℕ → ℕ × ℕ
layout_end ref n = let (c, n') = counter n in (c + 1 - ref, n')

-- POBJ_LAYOUT_TYPES_NUM
abbrev pub layout_types_num : ℕ → ℕ
layout_types_num cnt = cnt - 1

-- A line of a layout.
pub data Declared : Type 0 where
  root toid : Declared

-- The lines between the begin and the end: the lengths of the types `_type_num`, and the counter.
unfoldable pub declare : ℕ → List Declared → ℕ → List ℕ × ℕ
declare ref [] n = ([], n)
declare ref (root ∷ ds) n = let (types, n') = declare ref ds n in (layout_root ∷ types, n')
declare ref (toid ∷ ds) n =
    let (type, n1) = layout_toid ref n in let (types, n2) = declare ref ds n1 in (type ∷ types, n2)

-- A layout, where the counter stands at `n`: its types, and its POBJ_LAYOUT_TYPES_NUM.
unfoldable pub layout : List Declared → ℕ → List ℕ × ℕ
unfolding declare
layout ds n =
    let (ref, n1) = layout_begin n in
    let (types, n2) = declare ref ds n1 in
    let (cnt, n3) = layout_end ref n2 in (types, layout_types_num cnt)

-- The layout of src/queue/queue.h: the root, an entry and a queue.
abbrev pub queue_layout : List Declared
queue_layout = root ∷ toid ∷ toid ∷ []

-- The types of src/map/hashmap_tx.h: the map, its buckets and an entry.
abbrev pub hashmap_types : List ℕ
hashmap_types = toid_declare (1004 + 0) ∷ toid_declare (1004 + 1) ∷ toid_declare (1004 + 2) ∷ []

-- The types of src/cache/cache.h: the cache and an entry.
abbrev pub cache_types : List ℕ
cache_types = toid_declare 100 ∷ toid_declare (100 + 1) ∷ []

-- The numbers that a layout should give: 0 to its root and 1, 2 and so on to the others.
abbrev pub numbered : ℕ → List Declared → List ℕ
numbered k [] = []
numbered k (root ∷ ds) = 0 ∷ numbered k ds
numbered k (toid ∷ ds) = k ∷ numbered (k + 1) ds

abbrev pub toids : List Declared → ℕ
toids [] = 0
toids (root ∷ ds) = toids ds
toids (toid ∷ ds) = suc (toids ds)

unfoldable pub type_nums : List ℕ → List ℕ
type_nums [] = []
type_nums (type ∷ types) = toid_type_num type ∷ type_nums types

declare_lem :
    (k n : ℕ) (ds : List Declared)
    → (type_nums (declare (n + 1) ds (n + k)).0 ≡ numbered k ds)
      × ((declare (n + 1) ds (n + k)).1 ≡ n + k + toids ds)
unfolding declare type_nums
declare_lem k n [] = (refl, omega arith)
declare_lem k n (root ∷ ds) = let (nums, at) = declare_lem k n ds in (ap (λ l. 0 ∷ l) nums, at)
declare_lem k n (toid ∷ ds) =
    let next : n + (k + 1) ≡ n + k + 1 = omega arith in
    let (nums, at) = rw next at (declare_lem (k + 1) n ds) in
    (ap₂ (λ i l. i ∷ l) (omega arith) nums, omega (arith, at))

-- Wherever a layout stands in its file, it numbers its types from 1, in order, its root 0, and
-- POBJ_LAYOUT_TYPES_NUM is the number of types that are no root.
pub layout_lem :
    (ds : List Declared) (n : ℕ)
    → (type_nums (layout ds n).0 ≡ numbered 1 ds) × ((layout ds n).1 ≡ toids ds)
unfolding layout
layout_lem ds n = let (nums, at) = declare_lem 1 n ds in (nums, omega (arith, at))

-- No number of the list is `a`, and no two are the same.
abbrev pub IsNew : ℕ → List ℕ → Type 0
IsNew a [] = Unit {0}
IsNew a (b ∷ bs) = (a ≢ b) × IsNew a bs

abbrev pub IsDistinct : List ℕ → Type 0
IsDistinct [] = Unit {0}
IsDistinct (a ∷ as') = IsNew a as' × IsDistinct as'

-- The types of every object that the program keeps in a pool.
abbrev pub program_types : ℕ → List ℕ
program_types n = (layout queue_layout n).0 ++ (hashmap_types ++ cache_types)

-- The program's persistent types have different type numbers, also where they share a pool, so
-- OID_INSTANCEOF and TOID_VALID tell an object of one from an object of another.
pub program_types-IsDistinct : (n : ℕ) → IsDistinct (type_nums (program_types n))
unfolding layout declare type_nums
program_types-IsDistinct n = ground arith
