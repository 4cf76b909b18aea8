-- ===== src/Map/Chains.antt =====
-- One chain: what the loops of hashmap_tx.c over the entries of a bucket compute.
use mathlib.Core.Option
use pmem_rts_cache.Common.{
  ℕ, ◌+◌, ◌≤◌, ◌≡◌, refl, Option, none, some, [], ◌∷◌, ◌++◌, ◌==◌, if◌then◌else◌, length, arith,
}
use pmem_rts_cache.Pmem.{PmemOid, oid_null}
use pmem_rts_cache.Map.Table.{Chain}
use pmem_rts_cache.Map.Update.{scan, unlink}
use pmem_rts_cache.Map.Read.{get_in}

-- The value of the first entry with the key.
unfoldable pub find : ℕ → Chain → Option PmemOid
find q [] = none
find q (e ∷ c) = if e.key == q then some e.value else find q c

-- How many entries have the key.
unfoldable pub occurs : ℕ → Chain → ℕ
occurs q [] = 0
occurs q (e ∷ c) = (if e.key == q then 1 else 0) + occurs q c

unfoldable pub or_else {ℓ} : {A : Type ℓ} → Option A → Option A → Option A
or_else none o = o
or_else (some a) o = some a

pub or_else-none {ℓ} : {A : Type ℓ} (o : Option A) → or_else o none ≡ o
unfolding or_else
or_else-none none = refl
or_else-none (some a) = refl

pub none-or_else {ℓ} : {A : Type ℓ} (o : Option A) → or_else none o ≡ o
unfolding or_else
none-or_else o = refl

pub find-append : (q : ℕ) (c d : Chain) → find q (c ++ d) ≡ or_else (find q c) (find q d)
unfolding find or_else
find-append q [] d = refl
find-append q (e ∷ c) d = ground (arith, find-append q c d)

pub occurs-append : (q : ℕ) (c d : Chain) → occurs q (c ++ d) ≡ occurs q c + occurs q d
unfolding occurs
occurs-append q [] d = omega arith
occurs-append q (e ∷ c) d = omega (arith, occurs-append q c d)

pub find-eq-none : (q : ℕ) (c : Chain) → occurs q c ≡ 0 → find q c ≡ none
unfolding find occurs
find-eq-none q [] h = refl
find-eq-none q (e ∷ c) h = ground (arith, find-eq-none q c)

pub occurs-eq-zero : (q : ℕ) (c : Chain) → find q c ≡ none → occurs q c ≡ 0
unfolding find occurs
occurs-eq-zero q [] h = refl
occurs-eq-zero q (e ∷ c) h = ground (arith, occurs-eq-zero q c)

-- The loop of `hm_tx_insert` stops at a key that is there, and counts the entries otherwise.
pub scan_lem :
    (q : ℕ) (c : Chain) (n : ℕ)
    → scan q c n ≡ elim (find q c) [ none ↦ some (n + length c) | some _ ↦ none ]
unfolding scan find
scan_lem q [] n = ground arith
scan_lem q (e ∷ c) n = ground (arith, scan_lem q c (n + 1))

pub get_in_lem : (q : ℕ) (c : Chain) → get_in q c ≡ Option.get_or (find q c) oid_null
unfolding get_in find
get_in_lem q [] = refl
get_in_lem q (e ∷ c) = ground (arith, get_in_lem q c)

pub unlink-none : (q : ℕ) (c : Chain) → find q c ≡ none → unlink q c ≡ none
unfolding unlink find
unlink-none q [] h = refl
unlink-none q (e ∷ c) h = ground (arith, unlink-none q c)

-- The chain without its first entry with the key.
unfoldable pub without : ℕ → Chain → Chain
without q [] = []
without q (e ∷ c) = if e.key == q then c else e ∷ without q c

pub unlink-some :
    (q : ℕ) (c : Chain) (v : PmemOid) → find q c ≡ some v → unlink q c ≡ some (v, without q c)
unfolding unlink find without
unlink-some q [] v h = ground arith
unlink-some q (e ∷ c) v h = ground (arith, unlink-some q c v)

pub occurs-without :
    (k q : ℕ) (c : Chain) → occurs q c ≤ occurs q (without k c) + (if k == q then 1 else 0)
unfolding occurs without
occurs-without k q [] = omega arith
occurs-without k q (e ∷ c) = ground (arith, occurs-without k q c)

pub occurs-without-le : (k q : ℕ) (c : Chain) → occurs q (without k c) ≤ occurs q c
unfolding occurs without
occurs-without-le k q [] = omega arith
occurs-without-le k q (e ∷ c) = ground (arith, occurs-without-le k q c)

pub find-without :
    (k q : ℕ) (c : Chain)
    → occurs q c ≤ 1
    → find q (without k c) ≡ (if k == q then none else find q c)
unfolding find without occurs
find-without k q [] h = ground arith
find-without k q (e ∷ c) h = ground (arith, find-without k q c, find-eq-none q c)

pub length-without :
    (k : ℕ) (c : Chain) (v : PmemOid) → find k c ≡ some v → length (without k c) + 1 ≡ length c
unfolding without find
length-without k [] v h = ground arith
length-without k (e ∷ c) v h = ground (arith, length-without k c v)
