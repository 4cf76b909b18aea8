-- ===== src/Filter/Util.antt =====
-- src/dual_domain/filter/util.h: the tables, and the indices and the fingerprint of a key.
use pmem_rts_cache.Common.{
  ℕ, zero, suc, ◌+◌, ◌-◌, ◌%◌, ◌^◌, Option, some, List, [], ◌∷◌, ltb, if◌then◌else◌, ◌>>=◌,
  get_elem?, bit_and, bit_xor, replicate,
}
use pmem_rts_cache.Pmem.{u32_mod}
use pmem_rts_cache.Hashing.Fnv.{fnv1_32_init, fnv_32a_buf}
use pmem_rts_cache.Hashing.Mix.{hash_fp}
use pmem_rts_cache.Common.{Bool}

-- The global arrays.
pub record Tables : Type 0 where
  pub alt_hashes : List ℕ
  pub masks : List ℕ

-- As the program starts. Nothing in it calls `init`.
unfoldable pub zero_tables : Tables
zero_tables = record { alt_hashes = replicate 256 0; masks = replicate 65 0 }

-- What C leaves undefined: `(1 << i) - 1` in `int` for `i` from 31 on, and `hash >> 32` of a
-- `uint32_t`. The model takes any values.
pub record Undefined : Type 0 where
  pub wide_mask : ℕ → ℕ
  pub shr32 : ℕ → ℕ

-- The loop over `alt_hashes` at `i`, with `left` rounds to go.
unfoldable pub init_hashes : Bool → ℕ → ℕ → Option (List ℕ)
init_hashes plain zero i = some []
init_hashes plain (suc left) i = do
  h ← fnv_32a_buf plain (i ∷ []) 1 fnv1_32_init
  hs ← init_hashes plain left (i + 1)
  some (h ∷ hs)

-- The loop over `masks` at `i`, with `left` rounds to go; the last element keeps its zero.
unfoldable pub init_masks : Undefined → ℕ → ℕ → List ℕ
init_masks u zero i = 0 ∷ []
init_masks u (suc left) i =
    (if ltb i 31 then 2 ^ i - 1 else u.wide_mask i % u32_mod) ∷ init_masks u left (i + 1)

unfoldable pub init : Undefined → Bool → Option Tables
init u plain = do
  hs ← init_hashes plain 256 0
  some (record { alt_hashes = hs; masks = init_masks u 64 0 })

-- `struct IndexFP`
pub record IndexFp : Type 0 where
  pub indices : ℕ
  pub fp : ℕ

unfoldable pub index_and_fingerprint : Undefined → Bool → Tables → List ℕ → ℕ → ℕ → Option IndexFp
index_and_fingerprint u plain t key len bucket_pow = do
  hash ← fnv_32a_buf plain key len fnv1_32_init
  mask ← get_elem? t.masks bucket_pow
  some (record { indices = bit_and (u.shr32 hash % u32_mod) mask; fp = hash_fp hash % 255 + 1 })

unfoldable pub alt_index : Tables → ℕ → ℕ → ℕ → Option ℕ
alt_index t fingerprint i bucket_pow = do
  mask ← get_elem? t.masks bucket_pow
  alt ← get_elem? t.alt_hashes fingerprint
  some (bit_xor (bit_and i mask) (bit_and alt mask))
