-- ===== src/Meta.antt =====
-- internal/meta: the metadata of a directory on a POSIX system.
pub mod Names
pub mod Posix
