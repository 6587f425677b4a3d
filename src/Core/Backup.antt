-- ===== src/Core/Backup.antt =====
-- internal/core/backup.go, `Backup`. The scanner, the clock, the host and the destination are a record
-- of answers; the audit log is left out. A compressor that cannot be made or written to is a
-- destination that fails.
pub mod Buffered
pub mod Stored
pub mod Verified
use dtreesync.Base.{
  Text, ℕ, zero, suc, ◌+◌, Bool, true, false, not, ◌||◌, ◌&&◌, Option, none, some, List, [], ◌∷◌,
  ◌++◌, ◌==◌, text_eq, nat_eq, length, ltb, take, if◌then◌else◌,
}
use dtreesync.Base.Int.{ℤ, pos, negsuc}
use dtreesync.Base.Strings.{codes}
use dtreesync.Base.GoPath.{base, dir}
use dtreesync.Format.Deduce.{
  deduce_format_and_compression, or_deduced_format, or_deduced_compression, is_sqlite,
}
use dtreesync.Format.Tsv
use dtreesync.Format.Ndjson
use dtreesync.Storage.Url.{is_cloud_url}
use dtreesync.Model.Types.{
  BackupMetadata, BackupConfig, BackupResult, DirRecord, FormatType, CompressionType, zstd, Instant,
  Result, ok, err, ◌>>=◌, io_failure, invalid_path,
}
use dtreesync.Model.Path.{validate_and_clean_path}
use dtreesync.Core.Library.{Library}
use dtreesync.Core.Order.{sort_records}
use dtreesync.Core.Buffer.{
  HybridBuffer, FileWrite, done, failed, Answers, new_hybrid_buffer, write, reader,
}
use dtreesync.Core.Retention.{Entry, apply_retention}

-- What the backup finds outside.
pub record World : Type 0 where
  -- What the scanner sends, or its error.
  pub scan : Result (List DirRecord)
  pub now : Instant
  pub host_os : Text
  pub hostname : Text
  -- How a `bufio.Writer` passes a text on: the writes while it is filled, and the one of `Flush`.
  pub buffered : Text → List Text × Text
  -- What the system answers to the writes of the hybrid buffer.
  pub answers : ℕ → Answers
  pub opens : Text → Bool
  -- The writes to the destination, and closing it.
  pub header_writes : Bool
  pub header_write : FileWrite
  pub payload_write : Bool
  pub closes : Bool
  -- Writing a database: its size.
  pub write_sqlite : Text → BackupMetadata → List DirRecord → Result ℕ
  pub read_dir : Text → Option (List Entry)
  pub remove : Text → Bool

-- The bytes that the destination takes, and the snapshots that retention removes.
pub record Effects : Type 0 where
  pub written : Text
  pub purged : List Text

unfoldable pub backup_format : BackupConfig → FormatType
unfolding deduce_format_and_compression
backup_format cfg = or_deduced_format cfg.format (
    if cfg.target_url == []
    then FormatType.ndjson
    else (deduce_format_and_compression cfg.target_url).0)

unfoldable pub backup_compression : BackupConfig → CompressionType
unfolding deduce_format_and_compression
backup_compression cfg =
    or_deduced_compression cfg.compression
      (if cfg.target_url == [] then zstd else (deduce_format_and_compression cfg.target_url).1)

abbrev pub is_zstd : CompressionType → Bool
is_zstd CompressionType.zstd = true
is_zstd _ = false

abbrev pub format_text : FormatType → Text
format_text FormatType.no_format = []
format_text FormatType.tsv = codes "tsv"
format_text FormatType.ndjson = codes "ndjson"
format_text FormatType.sqlite = codes "sqlite"
format_text (FormatType.other_format name) = name

unfoldable pub metadata_of : World → BackupConfig → Text → Text → List DirRecord → BackupMetadata
unfolding base backup_format backup_compression
metadata_of world cfg clean_base mode recs = record {
  version = codes "2.0";
  base_folder = clean_base;
  entity = cfg.entity;
  created_at = world.now;
  folder_count = pos (length recs);
  tree_file = base cfg.target_url;
  tree_format = format_text (backup_format cfg);
  compression = is_zstd (backup_compression cfg);
  host_os = world.host_os;
  hostname = world.hostname;
  payload_sha256 = [];
  sort_order = mode;
}

-- The buffer, the bytes that the hasher has seen, and the number of the writes.
pub record Payload : Type 0 where
  pub buffer : HybridBuffer
  pub hashed : Text
  pub writes : ℕ

-- A write of the `MultiWriter`: the hasher comes after the buffer, if that gives no error.
unfoldable pub tee : (ℕ → Answers) → Payload → Text → Payload × Bool
unfolding write
tee answers p chunk =
    let (buffer, is_ok) = write p.buffer chunk (answers p.writes) in
    (
      record {
        buffer = buffer;
        hashed = (if is_ok then p.hashed ++ chunk else p.hashed);
        writes = suc p.writes;
      },
      is_ok,
    )

abbrev pub unless_failed : (Payload → Result Payload) → Payload × Bool → Result Payload
unless_failed go_on (q, true) = go_on q
unless_failed go_on (q, false) = err io_failure

-- A write that fails is the error of a `WriteRecord`.
unfoldable pub tee_all : (ℕ → Answers) → Payload → List Text → Result Payload
unfolding tee
tee_all answers p [] = ok p
tee_all answers p (chunk ∷ chunks) =
    unless_failed (λ q. tee_all answers q chunks) (tee answers p chunk)

-- The error of the last `Flush` is dropped.
unfoldable pub flush : (ℕ → Answers) → Payload → Text → Payload
unfolding tee
flush answers p [] = p
flush answers p (c ∷ chunk) = (tee answers p (c ∷ chunk)).0

unfoldable pub payload_text : Library → FormatType → List DirRecord → Text
unfolding Tsv.write_records Ndjson.write_records
payload_text lib FormatType.tsv recs = Tsv.write_records recs
payload_text lib _ recs = Ndjson.write_records lib.encode_record recs

unfoldable pub header_text : Library → FormatType → BackupMetadata → Text
unfolding Tsv.write_header Ndjson.write_header
header_text lib FormatType.tsv meta = Tsv.write_header lib.encode_meta lib.rfc3339 meta
header_text lib _ meta = Ndjson.write_header lib.encode_header meta

unfoldable pub buffer_payload : World → Text → Result Payload
unfolding tee_all flush new_hybrid_buffer
buffer_payload world text = do
  p ←
      tee_all world.answers
        (record { buffer = new_hybrid_buffer (pos 16777216); hashed = []; writes = 0 })
        (world.buffered text).0
  ok (flush world.answers p (world.buffered text).1)

-- The writer goes before the URL.
unfoldable pub open_destination : World → BackupConfig → Result Text
unfolding is_cloud_url validate_and_clean_path
open_destination world cfg =
    if cfg.has_writer
    then ok []
    else if cfg.target_url == []
    then err invalid_path
    else if is_cloud_url cfg.target_url
    then (if world.opens cfg.target_url then ok cfg.target_url else err io_failure)
    else (do
      path ← validate_and_clean_path cfg.target_url
      if world.opens path then ok path else err io_failure)

-- What arrives of the header: the error of its `Flush` is dropped.
abbrev pub arrived : FileWrite → Text → Text
arrived done text = text
arrived (failed n) text = take n text

-- The destination takes the header, with the digest of what was hashed, and the buffered bytes.
unfoldable pub deliver :
    Library
    → World
    → BackupConfig
    → BackupMetadata
    → ℕ
    → ℕ
    → Text
    → Text
    → Result (BackupResult × Text)
unfolding header_text open_destination
deliver lib world cfg meta0 folders size hashed payload = do
  let meta = record meta0 { payload_sha256 = lib.sha256 hashed }
  _ ← open_destination world cfg
  let text = arrived world.header_write (header_text lib (backup_format cfg) meta) ++ payload
  if world.header_writes && world.payload_write && world.closes
      then ok (
        record {
          folder_count = folders;
          payload_bytes = size;
          sha256_hash = meta.payload_sha256;
          artifact_url = cfg.target_url;
        },
        (if is_zstd (backup_compression cfg) then lib.compress text else text),
      )
      else err io_failure

-- The stream that the destination takes, and the result.
unfoldable pub write_snapshot :
    Library → World → BackupConfig → BackupMetadata → List DirRecord → Result (BackupResult × Text)
write_snapshot lib world cfg meta recs = do
  p ← buffer_payload world (payload_text lib (backup_format cfg) recs)
  deliver lib world cfg meta (length recs) p.buffer.size p.hashed (reader p.buffer)

unfoldable pub write_database :
    World → BackupConfig → BackupMetadata → List DirRecord → Result (BackupResult × Text)
unfolding validate_and_clean_path
write_database world cfg meta recs = if cfg.target_url == [] then err io_failure else (do
  path ← validate_and_clean_path cfg.target_url
  size ← world.write_sqlite path meta recs
  ok (
    record {
      folder_count = length recs;
      payload_bytes = size;
      sha256_hash = [];
      artifact_url = cfg.target_url;
    },
    [],
  ))

abbrev is_set : ℤ → Bool
is_set (pos n) = ltb 0 n
is_set (negsuc n) = false

abbrev removed : Result (List Text) → List Text
removed (ok paths) = paths
removed (err _) = []

-- Retention goes over the directory of a local target; its error is dropped.
unfoldable pub clean_up : World → BackupConfig → List Text
unfolding apply_retention is_cloud_url dir
clean_up world cfg =
    if not (cfg.target_url == [])
      && not (is_cloud_url cfg.target_url)
      && (is_set cfg.retention_days || is_set cfg.retention_count)
    then removed (
        apply_retention world.read_dir world.remove world.now (dir cfg.target_url)
          cfg.retention_days cfg.retention_count cfg.retention_prefix)
    else []

-- From step 3 on: the records of the scan are sorted and stored.
unfoldable pub store_records :
    Library
    → World
    → BackupConfig
    → Text
    → Result (List DirRecord)
    → Result (BackupResult × Effects)
store_records lib world cfg clean_base scan = do
  scanned ← scan
  (mode, recs) ← sort_records cfg.sort_order scanned
  let meta = metadata_of world cfg clean_base mode recs
  (result, written) ←
      (if is_sqlite (backup_format cfg)
        then write_database world cfg meta recs
        else write_snapshot lib world cfg meta recs)
  ok (result, record { written = written; purged = clean_up world cfg })

unfoldable pub backup : Library → World → BackupConfig → Result (BackupResult × Effects)
backup lib world cfg = do
  clean_base ← validate_and_clean_path cfg.base_folder
  store_records lib world cfg clean_base world.scan
