-- ===== src/Hashing.antt =====
-- src/dual_domain/hashing: the FNV hashes, and the mixing functions of hash_funcs.h.
pub mod Fnv
pub mod FnvLaws
pub mod FnvFamily
pub mod Mix
pub mod Binary
pub mod MixLaws
pub mod Murmur
pub mod Interface
