-- ===== src/Storage.antt =====
-- internal/storage: where snapshots are kept.
pub mod Url
pub mod CloudAuth
