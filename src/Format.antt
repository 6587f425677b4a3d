-- ===== src/Format.antt =====
-- internal/format: the serialisations of a snapshot.
pub mod Deduce
pub mod Lines
pub mod Tsv
pub mod Ndjson
pub mod Sqlite
