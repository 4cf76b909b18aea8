-- ===== src/Cache.antt =====
-- src/cache: the cache over the persistent heap. `Pool` holds the heap and transactions, `Code` the
-- operations.
pub mod Pool
pub mod Code
pub mod Keeps
pub mod Entries
pub mod Links
pub mod Unlinking
pub mod Deletion
pub mod Abort
pub mod Addition
pub mod Set
pub mod Get
pub mod History
pub mod Macros
