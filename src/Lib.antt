-- ===== src/Lib.antt =====
-- dtreesync saves the directories of a tree with their metadata in a snapshot, and restores, compares
-- and verifies trees by it. This library models its Go code, file by file.
--
-- Model: internal/model. Types has the records (types.go, errors.go); Path and Rebase the checks of
-- paths, Glob and Filter the record filters (path.go); Identity the identity map (idmap.go); Limiter
-- the rate limiter (ratelimit.go); Audit the audit log (audit.go), a step relation of its callers and
-- its worker.
--
-- Format: internal/format. Deduce has DeduceFormatAndCompression (format.go), Tsv and Ndjson the
-- writers and readers (tsv.go, ndjson.go), Lines the line reader that both share; Sqlite the writer and
-- the readers of databases (sqlite.go) over the calls of the driver and the laws of its transactions.
--
-- Storage: in internal/storage, Url has the tests of addresses (cloud.go, git.go) and CloudAuth has
-- PrepareCloudAuth with its cleanup (secret.go).
--
-- Meta: internal/meta. Names has the caches of account names, Posix the POSIX engine (meta_posix.go,
-- meta_linux.go).
--
-- Core: internal/core. Mirror is EvacuateUntracked (mirror.go); Scanner is the Scanner (scanner.go),
-- its workers a step relation over the backlog; Backup, Order and Buffer are Backup (backup.go);
-- Restore and Source are Restore and the opening of snapshots (restore.go); Diff is Diff (diff.go);
-- Verify is Verify (verify.go); Retention is ApplyRetention (retention.go); Signal is SetupSignalTrap
-- (signal.go); Library is what the engines call of other packages.
--
-- Cli: cmd/dtreesync/main.go. Runs and Backups have the subcommands backup, restore, diff and verify,
-- with the engines as arguments, behind the public package (pkg/dtreesync/api.go).
--
-- Base: texts, numbers, sorting, decimal numbers and the lexical functions on paths of the standard
-- library. Samples: the theorems at concrete inputs.
--
-- The engines read a snapshot through Format, filter and translate its records with Model, and act on
-- the file system, which is a record of answers to the calls so far. A text is its list of code
-- points; sizes and limits count the bytes of its UTF-8 form. Integers of a fixed width keep their
-- bounds: retention windows and times wrap or saturate as 64-bit integers do. A stream is its whole
-- text; a reader gives an error as a value. The workers of a layer of a restore run one after the
-- other in an order that the system chooses. Sorting keeps the order of records with the same path,
-- which the source leaves open.
--
-- Fuel occurs in Model.Glob and Model.Glob.Pattern, where it is the length of the pattern and every
-- round takes at least one character, and in the printing of numbers in Base.Decimal, where it is
-- above the number; that it is enough there is a part of the round trips of Base.Decimal.RoundTrip.
--
-- Not modelled: the Windows branches, the parsing of flags and what is printed, the subcommand
-- status, transfers to cloud stores and Git, and cancellation in the scanner. The engines call the
-- metadata, the mirror archive and the databases through answers of their own.
pub mod Base
pub mod Model
pub mod Format
pub mod Storage
pub mod Meta
pub mod Core
pub mod Cli
mod Samples
