-- ===== src/Map.antt =====
-- src/map: the transactional hash map. `Table`, `Update` and `Read` hold its data and operations.
pub mod Table
pub mod Update
pub mod Read
pub mod Chains
pub mod Rows
pub mod Invariant
pub mod Rebuild
pub mod Insert
pub mod Remove
pub mod Reading
pub mod Creating
pub mod Commands
pub mod History
pub mod Interface
pub mod Memory
pub mod Atomicity
