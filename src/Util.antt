-- ===== src/Util.antt =====
-- src/util: byte-array keys, the local lock manager and the statistics.
pub mod ArrayVar
pub mod LocalLock
pub mod Histogram
pub mod Tracker
