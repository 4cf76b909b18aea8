-- ===== src/Pmem.antt =====
-- What the program uses of libpmemobj. The library itself is not modelled: whether a transaction
-- commits is an argument of each function that runs one, and an aborted transaction leaves the
-- persistent state as it was at TX_BEGIN.
pub mod Direct
pub mod Layout
pub mod Undo
pub mod Rollback
pub mod Reading
use pmem_rts_cache.Common.{ℕ, ◌^◌, Bool, ◌==◌}

-- `PMEMoid`, a persistent pointer.
pub record PmemOid : Type 0 where
  pub pool_uuid_lo : ℕ
  pub off : ℕ

-- `OID_NULL`
abbrev pub oid_null : PmemOid
oid_null = record { pool_uuid_lo = 0; off = 0 }

-- `OID_IS_NULL`
abbrev pub oid_is_null : PmemOid → Bool
oid_is_null o = o.off == 0

-- `PMEMOBJ_MAX_ALLOC_SIZE`: a larger allocation aborts its transaction.
abbrev pub max_alloc_size : ℕ
max_alloc_size = 0x3FFDFFFC0

-- The values that `size_t` and `uint64_t` wrap at.
abbrev pub u64_mod : ℕ
u64_mod = 2 ^ 64

abbrev pub u32_mod : ℕ
u32_mod = 2 ^ 32
