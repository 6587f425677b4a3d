-- ===== src/Core/Backup/Verified.antt =====
-- internal/core/backup.go and verify.go: what a backup writes is verified.
use dtreesync.Base.Int.{pos}
use dtreesync.Base.{
  Text, ℕ, length, ap, ◌∙◌, arith, nat_eq, false, none, some, List, [], ◌++◌, ◌≡◌, refl, inr, All,
  if◌then◌else◌, text_eq,
}
use dtreesync.Format.Tsv
use dtreesync.Format.Tsv.Stream.{IsCodec, IsHeader}
use dtreesync.Model.Types.{
  BackupConfig, BackupResult, DirRecord, FormatType, CompressionType, zstd, no_compression,
  none_compression, other_compression, VerifyConfig, VerifyResult, count_mismatch, ok,
}
use dtreesync.Model.Path.{validate_and_clean_path}
use dtreesync.Core.Library.{Library}
use dtreesync.Core.Order.{sort_records}
use dtreesync.Core.Source.{Store, is_compressed, has_zstd_magic}
use dtreesync.Core.Backup.{
  World, Effects, backup, backup_format, backup_compression, open_destination, is_zstd, header_text,
  clean_up, metadata_of,
}
use dtreesync.Core.Backup.Buffered.{IsReliable}
use dtreesync.Core.Backup.Stored.{
  final_metadata, final_result, stored_text, backup-stored, tsv_no_magic, sort_records-All,
}
use dtreesync.Core.Verify.{
  Tools, unpacked, chosen_format, chosen_compression, open_input, verify, issue_if, miscounted,
}
use dtreesync.Core.Verify.Rows.{IsInOrder}
use dtreesync.Core.Verify.Written.{verify-written}

unpacked_stored :
    (lib : Library) (tools : Tools) (comp : CompressionType) (text : Text)
    → ((t : Text) → tools.open_zstd (lib.compress t) ≡ some (record { text = t; broken = false }))
    → has_zstd_magic text ≡ false
    → unpacked tools comp (if is_zstd comp then lib.compress text else text)
      ≡ some (record { text = text; broken = false })
unfolding unpacked is_compressed
unpacked_stored lib tools zstd text packs plain = packs text
unpacked_stored lib tools no_compression text packs plain = rw plain refl
unpacked_stored lib tools none_compression text packs plain = refl
unpacked_stored lib tools (other_compression name) text packs plain = refl

same_count : (n : ℕ) → miscounted (pos n) n ≡ false
same_count n = ground arith

-- The configuration that verifies a stream as the backup has written it.
abbrev pub check_of : BackupConfig → Text → VerifyConfig
check_of cfg stream = record {
  source_url = [];
  reader = some stream;
  format = FormatType.tsv;
  compression = backup_compression cfg;
}

-- A TSV backup whose scan succeeds and whose destination works succeeds, and verifying what it wrote,
-- compressed or not, gives no error, counts its records and lists no message, if a row can hold the columns of each record (the fields that have no
-- column, as the times of access and change, are free), their paths are in normal form,
-- `encoding/json` decodes the header, and decompressing undoes compressing.
pub backup-verify :
    (lib : Library) (tools : Tools) (store : Store) (world : World) (cfg : BackupConfig)
    (clean_base mode dest : Text) (scanned recs : List DirRecord)
    → IsReliable world
    → ((t : Text) → tools.open_zstd (lib.compress t) ≡ some (record { text = t; broken = false }))
    → backup_format cfg ≡ FormatType.tsv
    → open_destination world cfg ≡ ok dest
    → validate_and_clean_path cfg.base_folder ≡ ok clean_base
    → world.scan ≡ ok scanned
    → sort_records cfg.sort_order scanned ≡ ok (mode, recs)
    → IsCodec lib.encode_meta lib.decode_meta (final_metadata lib world cfg clean_base mode recs)
    → IsHeader lib.encode_meta lib.rfc3339 (final_metadata lib world cfg clean_base mode recs)
    → All IsInOrder scanned
    → (result : BackupResult) × (effects : Effects) × (backup lib world cfg ≡ ok (result, effects))
      × ((r : VerifyResult) × (verify lib tools store (check_of cfg effects.written) ≡ ok (r, none))
          × (r.record_count ≡ length recs)
          × (r.errors ≡ []))
unfolding chosen_format chosen_compression open_input metadata_of text_eq
backup-verify lib tools store world cfg clean_base mode dest scanned recs works packs is_tsv opens
      valid scan sorted codec fits h =
    let meta = final_metadata lib world cfg clean_base mode recs in
    let text = Tsv.write_header lib.encode_meta lib.rfc3339 meta ++ Tsv.write_records recs in
    let written = stored_text lib cfg meta recs in
    let (r, e, number, listed) =
      verify-written lib tools store (check_of cfg written) written meta recs codec fits
        (sort_records-All IsInOrder cfg.sort_order mode scanned recs sorted h) (inr refl) refl refl
        (unpacked_stored lib tools (backup_compression cfg) text packs
          (unfold header_text in tsv_no_magic lib meta (Tsv.write_records recs))) in
    (
      final_result lib cfg recs,
      record { written = written; purged = clean_up world cfg },
      backup-stored lib world cfg works is_tsv dest opens clean_base mode scanned recs valid scan
          sorted,
      (r, e, number, listed ∙ ap (λ b. issue_if b count_mismatch) (same_count (length recs))),
    )
