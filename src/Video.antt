-- ===== src/Video.antt =====
-- The CADR's display: src/tv/sync.rs.
pub mod Sync
