-- ===== src/Core/Source.antt =====
-- internal/core/restore.go, `readSnapshotFromReader` and `readSnapshotFromSource`: how a snapshot is opened.
-- What a file, an object of a cloud store or a database holds is a record of answers; `none` is an error.
use dtreesync.Base.{
  Text, Bool, true, false, ◌&&◌, Option, none, some, List, [], ◌∷◌, ◌==◌, text_eq, nat_eq,
  if◌then◌else◌,
}
use dtreesync.Format.Deduce.{
  deduce_format_and_compression, or_deduced_format, or_deduced_compression, is_sqlite,
}
use dtreesync.Format.Tsv.{read_tsv_records}
use dtreesync.Format.Ndjson.{read_ndjson_records}
use dtreesync.Format.Lines.{collect}
use dtreesync.Storage.Url.{is_cloud_url}
use dtreesync.Model.Types.{
  BackupMetadata, DirRecord, FormatType, CompressionType, no_format, no_compression, zstd, Result,
  ok, err, ◌>>=◌, format_unsupported, snapshot_not_found, io_failure,
}
use dtreesync.Model.Path.{validate_and_clean_path}
use dtreesync.Core.Library.{Library}

-- The magic number of a Zstandard frame.
unfoldable pub has_zstd_magic : Text → Bool
unfolding nat_eq
has_zstd_magic (a ∷ b ∷ c ∷ d ∷ _) = a == 0x28 && (b == 0xb5 && (c == 0x2f && d == 0xfd))
has_zstd_magic _ = false

unfoldable pub is_compressed : CompressionType → Text → Bool
unfolding has_zstd_magic
is_compressed zstd stream = true
is_compressed no_compression stream = has_zstd_magic stream
is_compressed _ stream = false

-- The format that the first byte shows.
abbrev pub lead_format : Text → FormatType
lead_format [] = FormatType.ndjson
lead_format (c ∷ _) = if c == b'#' then FormatType.tsv else FormatType.ndjson

unfoldable pub resolve_format : FormatType → Text → FormatType
resolve_format no_format text = lead_format text
resolve_format fmt text = fmt

-- What the program finds outside.
pub record Store : Type 0 where
  pub open_file : Text → Option Text
  pub open_cloud : Text → Option Text
  pub read_sqlite : Text → Result (BackupMetadata × List DirRecord)

abbrev pub opened : Option Text → Result Text
opened none = err io_failure
opened (some stream) = ok stream

module _ {ℓ} {S : Type ℓ} (lib : Library) (on_record : S → DirRecord → Result S) where
  unfoldable pub read_format : FormatType → Text → S → Result (BackupMetadata × S)
  unfolding read_tsv_records read_ndjson_records
  read_format FormatType.tsv text s = read_tsv_records lib.decode_meta on_record text s
  read_format FormatType.ndjson text s =
      read_ndjson_records lib.decode_header lib.decode_record on_record text s
  read_format _ text s = err format_unsupported

  unfoldable pub read_snapshot_from_reader :
      Text → FormatType → CompressionType → S → Result (BackupMetadata × S)
  unfolding is_compressed resolve_format read_format
  read_snapshot_from_reader stream fmt comp s = do
    text ← (if is_compressed comp stream then lib.decompress stream else ok stream)
    read_format (resolve_format fmt text) text s

  feed : List DirRecord → S → Result S
  feed [] s = ok s
  feed (rec ∷ recs) s = do t ← on_record s rec; feed recs t

  -- `ReadSQLiteRecords` over the rows of the database.
  read_rows : BackupMetadata × List DirRecord → S → Result (BackupMetadata × S)
  unfolding feed
  read_rows (meta, recs) s = do t ← feed recs s; ok (meta, t)

  unfoldable pub read_snapshot_from_source :
      Store → Text → FormatType → CompressionType → S → Result (BackupMetadata × S)
  unfolding read_snapshot_from_reader read_rows deduce_format_and_compression is_cloud_url
      validate_and_clean_path
  read_snapshot_from_source store url fmt0 comp0 s =
      let deduced = deduce_format_and_compression url in
      let fmt = or_deduced_format fmt0 deduced.0 in
      let comp = or_deduced_compression comp0 deduced.1 in
      if is_sqlite fmt
      then (do rows ← store.read_sqlite url; read_rows rows s)
      else if is_cloud_url url
      then (do stream ← opened (store.open_cloud url); read_snapshot_from_reader stream fmt comp s)
      else (do
        path ← validate_and_clean_path url
        stream ← opened (store.open_file path)
        read_snapshot_from_reader stream fmt comp s)

-- The choice of the engines: a reader goes before a URL, and without either there is no snapshot.
unfoldable pub read_snapshot :
    Library
    → Store
    → Option Text
    → Text
    → FormatType
    → CompressionType
    → Result (BackupMetadata × List DirRecord)
unfolding read_snapshot_from_reader read_snapshot_from_source
read_snapshot lib store (some stream) url fmt comp =
    read_snapshot_from_reader lib collect stream fmt comp []
read_snapshot lib store none [] fmt comp = err snapshot_not_found
read_snapshot lib store none (c ∷ url) fmt comp =
    read_snapshot_from_source lib collect store (c ∷ url) fmt comp []
