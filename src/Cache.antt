-- ===== src/Cache.antt =====
-- src/cache: the cache of tree nodes by ranges of keys, and the reclamation of its entries.
pub mod Counters
pub mod Range
pub mod Epochs
