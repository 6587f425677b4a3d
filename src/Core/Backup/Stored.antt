-- ===== src/Core/Backup/Stored.antt =====
-- internal/core/backup.go: a backup whose destination works is read back and verified.
use mathlib.Core.List.{Perm}
use dtreesync.Base.{
  Text, false, List, [], ◌++◌, ◌≡◌, refl, ◌∙◌, ap, inl, inr, text_eq, nat_eq, length, All, map,
  if◌then◌else◌,
}
use dtreesync.Base.Sort.{sort-All}
use dtreesync.Base.Strings.{byte_length}
use dtreesync.Format.Lines.{collect}
use dtreesync.Format.Tsv
use dtreesync.Format.Tsv.{read_tsv_records}
use dtreesync.Format.Tsv.Row.{IsTsvRecord, in_columns}
use dtreesync.Format.Tsv.Stream.{IsCodec, IsHeader, read_tsv_records-write}
use dtreesync.Model.Types.{
  BackupMetadata, BackupConfig, BackupResult, DirRecord, FormatType, CompressionType, zstd,
  no_compression, none_compression, other_compression, ok,
}
use dtreesync.Model.Path.{validate_and_clean_path}
use dtreesync.Core.Library.{Library}
use dtreesync.Core.Order.{sort_records, path_leb, depth_leb}
use dtreesync.Core.Order.Parents.{sort_records_cases, sort_records-perm}
use dtreesync.Core.Buffer.{reader}
use dtreesync.Core.Source.{
  read_snapshot_from_reader, resolve_format, read_format, is_compressed, has_zstd_magic,
}
use dtreesync.Core.Backup.{
  World, Effects, payload_text, header_text, open_destination, deliver, write_snapshot,
  store_records, backup, backup_format, backup_compression, metadata_of, is_zstd, clean_up,
}
use dtreesync.Core.Backup.Buffered.{IsReliable, buffer_payload-Holds}

read_format_written :
    (lib : Library) (comp : CompressionType) (text : Text) (meta : BackupMetadata)
    (recs : List DirRecord)
    → ((t : Text) → lib.decompress (lib.compress t) ≡ ok t)
    → has_zstd_magic text ≡ false
    → read_tsv_records lib.decode_meta collect text [] ≡ ok (meta, recs)
    → read_snapshot_from_reader lib collect
        (if is_zstd comp then lib.compress text else text)
        FormatType.tsv
        comp
        []
      ≡ ok (meta, recs)
unfolding read_snapshot_from_reader is_compressed resolve_format read_format
read_format_written lib zstd text meta recs packs plain h = rw (packs text) h
read_format_written lib no_compression text meta recs packs plain h = rw plain h
read_format_written lib none_compression text meta recs packs plain h = h
read_format_written lib (other_compression name) text meta recs packs plain h = h

pub tsv_no_magic :
    (lib : Library) (meta : BackupMetadata) (rest : Text)
    → has_zstd_magic (header_text lib FormatType.tsv meta ++ rest) ≡ false
unfolding header_text Tsv.write_header has_zstd_magic nat_eq
tsv_no_magic lib meta rest = refl

-- The records that are sorted are the ones that the scanner sent.
pub sort_records-All :
    (P : DirRecord → Type 0) (order mode : Text) (scanned recs : List DirRecord)
    → sort_records order scanned ≡ ok (mode, recs)
    → All P scanned
    → All P recs
sort_records-All P order mode scanned recs e h =
    elim (sort_records_cases order mode scanned recs e) [
      | inl (_, k) ↦ rw k (sort-All path_leb P scanned h)
      | inr (inl (_, k)) ↦ rw k (sort-All depth_leb P scanned h)
      | inr (inr (_, k)) ↦ rw k h
    ]

-- The header of a TSV backup.
abbrev pub final_metadata :
    Library → World → BackupConfig → Text → Text → List DirRecord → BackupMetadata
final_metadata lib world cfg clean_base mode recs =
    record (metadata_of world cfg clean_base mode recs) {
      payload_sha256 = lib.sha256 (Tsv.write_records recs);
    }

-- What a backup leaves at its destination.
abbrev pub stored_text : Library → BackupConfig → BackupMetadata → List DirRecord → Text
stored_text lib cfg meta recs =
    let text = Tsv.write_header lib.encode_meta lib.rfc3339 meta ++ Tsv.write_records recs in
    if is_zstd (backup_compression cfg) then lib.compress text else text

abbrev pub final_result : Library → BackupConfig → List DirRecord → BackupResult
final_result lib cfg recs = record {
  folder_count = length recs;
  payload_bytes = byte_length (Tsv.write_records recs);
  sha256_hash = lib.sha256 (Tsv.write_records recs);
  artifact_url = cfg.target_url;
}

module _ (lib : Library) (world : World) (cfg : BackupConfig) (works : IsReliable world)
    (is_tsv : backup_format cfg ≡ FormatType.tsv) (dest : Text)
    (opens : open_destination world cfg ≡ ok dest) where
  deliver-stored :
      (clean_base mode : Text) (recs : List DirRecord)
      → deliver lib world cfg
          (metadata_of world cfg clean_base mode recs)
          (length recs)
          (byte_length (Tsv.write_records recs))
          (Tsv.write_records recs)
          (Tsv.write_records recs)
        ≡ ok (
          final_result lib cfg recs,
          stored_text lib cfg (final_metadata lib world cfg clean_base mode recs) recs,
        )
  unfolding deliver header_text
  deliver-stored clean_base mode recs =
      rw (
        opens, works.header_taken, works.header_written, works.payload_written, works.closed,
        is_tsv,
      )

  write_snapshot-stored :
      (clean_base mode : Text) (recs : List DirRecord)
      → write_snapshot lib world cfg (metadata_of world cfg clean_base mode recs) recs
        ≡ ok (
          final_result lib cfg recs,
          stored_text lib cfg (final_metadata lib world cfg clean_base mode recs) recs,
        )
  unfolding write_snapshot payload_text
  write_snapshot-stored clean_base mode recs =
      let meta = metadata_of world cfg clean_base mode recs in
      let text = Tsv.write_records recs in
      let (p, e, k) = buffer_payload-Holds world text works in
      let size : p.buffer.size ≡ byte_length text =
        k.consistent.size_exact ∙ ap byte_length k.read_back in
      rw (is_tsv, e)
        (ap (λ n. deliver lib world cfg meta (length recs) n p.hashed (reader p.buffer)) size
          ∙ ap
              (λ h. deliver lib world cfg meta (length recs) (byte_length text) h (reader p.buffer))
              k.hashed
          ∙ ap (deliver lib world cfg meta (length recs) (byte_length text) text) k.read_back
          ∙ deliver-stored clean_base mode recs)

  store_records-stored :
      (clean_base mode : Text) (scanned recs : List DirRecord)
      → sort_records cfg.sort_order scanned ≡ ok (mode, recs)
      → store_records lib world cfg clean_base (ok scanned)
        ≡ ok (
          final_result lib cfg recs,
          record {
            written = stored_text lib cfg (final_metadata lib world cfg clean_base mode recs) recs;
            purged = clean_up world cfg;
          },
        )
  unfolding store_records
  store_records-stored clean_base mode scanned recs sorted =
      rw (sorted, is_tsv, write_snapshot-stored clean_base mode recs)

  -- With a destination that works, a TSV backup succeeds and leaves exactly the header and the rows of
  -- the records, compressed if so configured.
  pub backup-stored :
      (clean_base mode : Text) (scanned recs : List DirRecord)
      → validate_and_clean_path cfg.base_folder ≡ ok clean_base
      → world.scan ≡ ok scanned
      → sort_records cfg.sort_order scanned ≡ ok (mode, recs)
      → backup lib world cfg
        ≡ ok (
          final_result lib cfg recs,
          record {
            written = stored_text lib cfg (final_metadata lib world cfg clean_base mode recs) recs;
            purged = clean_up world cfg;
          },
        )
  unfolding backup
  backup-stored clean_base mode scanned recs valid scan sorted = rw valid (
      ap (store_records lib world cfg clean_base) scan
      ∙ store_records-stored clean_base mode scanned recs sorted)

-- A TSV backup whose scan succeeds and whose destination works succeeds, and what it writes, compressed
-- or not, is read back as its header and the sorted records of the scan, each of them once, with the
-- fields that have a column: the times of access, change and birth, the text of the ACL and the Windows
-- owner have none and are lost. The columns are ones that a row can hold, `encoding/json` decodes the
-- header, and decompressing undoes compressing.
pub backup-read :
    (lib : Library) (world : World) (cfg : BackupConfig) (clean_base mode dest : Text)
    (scanned recs : List DirRecord)
    → IsReliable world
    → ((t : Text) → lib.decompress (lib.compress t) ≡ ok t)
    → backup_format cfg ≡ FormatType.tsv
    → open_destination world cfg ≡ ok dest
    → validate_and_clean_path cfg.base_folder ≡ ok clean_base
    → world.scan ≡ ok scanned
    → sort_records cfg.sort_order scanned ≡ ok (mode, recs)
    → IsCodec lib.encode_meta lib.decode_meta (final_metadata lib world cfg clean_base mode recs)
    → IsHeader lib.encode_meta lib.rfc3339 (final_metadata lib world cfg clean_base mode recs)
    → All IsTsvRecord scanned
    → (result : BackupResult) × (effects : Effects) × (backup lib world cfg ≡ ok (result, effects))
      × (read_snapshot_from_reader lib collect effects.written FormatType.tsv
            (backup_compression cfg)
            []
          ≡ ok (final_metadata lib world cfg clean_base mode recs, map in_columns recs))
      × Perm recs scanned
backup-read lib world cfg clean_base mode dest scanned recs works packs is_tsv opens valid scan
      sorted codec fits h =
    let meta = final_metadata lib world cfg clean_base mode recs in
    (
      final_result lib cfg recs,
      record { written = stored_text lib cfg meta recs; purged = clean_up world cfg },
      backup-stored lib world cfg works is_tsv dest opens clean_base mode scanned recs valid scan
          sorted,
      read_format_written lib (backup_compression cfg)
          (Tsv.write_header lib.encode_meta lib.rfc3339 meta ++ Tsv.write_records recs) meta
          (map in_columns recs) packs
          (unfold header_text in tsv_no_magic lib meta (Tsv.write_records recs))
          (read_tsv_records-write lib.encode_meta lib.decode_meta lib.rfc3339 meta codec fits recs
            (sort_records-All IsTsvRecord cfg.sort_order mode scanned recs sorted h)),
      sort_records-perm cfg.sort_order mode scanned recs sorted,
    )
