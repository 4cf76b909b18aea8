-- ===== src/Filter.antt =====
-- src/dual_domain/filter: the cuckoo filter. `Bucket`, `Util` and `Cuckoo` hold the code.
pub mod Bucket
pub mod Util
pub mod Cuckoo
pub mod Scalable
pub mod Capacity
pub mod Indices
pub mod BucketLaws
pub mod Contents
pub mod BucketRun
pub mod Outcomes
pub mod Growth
pub mod Keys
pub mod Deletion
pub mod Insertion
pub mod History
pub mod Resetting
pub mod Interface
