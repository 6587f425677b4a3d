-- ===== src/Samples.antt =====
-- Concrete snapshots, paths and systems, and the theorems at them.
mod Records
mod Paths
mod Formats
mod Engines
mod Backups
mod Stored
mod Scans
mod Audit
mod Mirrors
mod Databases
mod Metas
mod Commands
mod Credentials
