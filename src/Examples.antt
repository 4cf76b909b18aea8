-- ===== src/Examples.antt =====
-- Runs of the code on small inputs, and each theorem with hypotheses applied where they hold.
mod Map
mod Queue
mod Hashing
mod Filter
mod Cache
mod CacheList
mod Random
mod Main
mod Sampling
mod FilterCalls
mod Buckets
mod Undo
mod QueueMemory
