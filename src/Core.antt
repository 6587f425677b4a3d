-- ===== src/Core.antt =====
-- internal/core: the engines.
pub mod Buffer
pub mod Retention
pub mod Diff
pub mod Order
pub mod Signal
pub mod Restore
pub mod Library
pub mod Source
pub mod Verify
pub mod Backup
pub mod Scanner
pub mod Mirror
