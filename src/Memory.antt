-- ===== src/Memory.antt =====
-- QUUX's main memory as it is timed: the cache, and the port in front of it.
pub mod Cache
pub mod Cycle
pub mod Port
