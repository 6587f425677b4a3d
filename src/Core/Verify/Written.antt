-- ===== src/Core/Verify/Written.antt =====
-- internal/core/verify.go: a TSV snapshot as the writer leaves it is verified.
use dtreesync.Base.{
  Text, false, none, some, List, [], ◌∷◌, ◌++◌, ◌≡◌, refl, ◌∙◌, ap, text_eq, nat_eq, All, length,
}
use dtreesync.Base.Strings.{codes, trim_prefix}
use dtreesync.Base.Strings.Parts.{split-append}
use dtreesync.Format.Lines.{text_of_lines}
use dtreesync.Format.Tsv.{
  tsv_meta_prefix, tsv_column_header, write_header, write_records, read_tsv_header,
}
use dtreesync.Format.Tsv.Row.{IsTsvRecord}
use dtreesync.Format.Tsv.Stream.{
  IsCodec, IsHeader, scan_lines-write_records, header_lines, header_text, header_lines-Lacks,
  meta_trimmed, strip_prefix,
}
use dtreesync.Model.Types.{
  BackupMetadata, DirRecord, FormatType, VerifyConfig, VerifyResult, count_mismatch, ok,
}
use dtreesync.Core.Library.{Library}
use dtreesync.Core.Verify.{
  payload, judge_line, open_payload, Tools, detect_format, chosen_format, chosen_compression,
  unpacked, open_input, verify, issue_if, miscounted,
}
use dtreesync.Core.Source.{Store}
use dtreesync.Core.Verify.Sound.{IsDigest, IsIntact, IsAccepted, verify-IsAccepted}
use dtreesync.Core.Verify.Counted.{verify-count}
use dtreesync.Core.Verify.Rows.{
  IsInOrder, cut_line-append, skip_comment, skip_column_header, skip_records, rows-IsSound,
  fits-All, line_first, skip_lines,
}

module _ (lib : Library) (meta : BackupMetadata)
    (codec : IsCodec lib.encode_meta lib.decode_meta meta)
    (fits : IsHeader lib.encode_meta lib.rfc3339 meta) where
  header_read :
      read_tsv_header lib.decode_meta ((tsv_meta_prefix ++ lib.encode_meta meta) ++ codes "\n")
      ≡ ok meta
  unfolding read_tsv_header trim_prefix header_lines
  header_read =
      rw
        (
          split-append b'\n' (tsv_meta_prefix ++ lib.encode_meta meta) []
              (header_lines-Lacks lib.encode_meta lib.decode_meta lib.rfc3339 meta codec fits).0,
          meta_trimmed lib.encode_meta lib.decode_meta meta codec,
          strip_prefix tsv_meta_prefix (lib.encode_meta meta),
        )
        (rw codec.decode-encode)

  opens_written :
      (recs : List DirRecord)
      → All IsTsvRecord recs
      → open_payload lib FormatType.tsv
          (write_header lib.encode_meta lib.rfc3339 meta ++ write_records recs)
        ≡ payload meta (write_records recs)
  unfolding open_payload header_lines
  opens_written recs h =
      let (first, (comment, (base, (time, _)))) =
        header_lines-Lacks lib.encode_meta lib.decode_meta lib.rfc3339 meta codec fits in
      let preamble : List Text =
        codes "# COMPLIANCE AUDIT RECORD: dtreesync"
        ∷ (codes "# SOURCE_BASE: " ++ meta.base_folder)
        ∷ (codes "# TIMESTAMP_UTC: " ++ lib.rfc3339 meta.created_at)
        ∷ tsv_column_header
        ∷ [] in
      let shape : write_header lib.encode_meta lib.rfc3339 meta ++ write_records recs
          ≡ (tsv_meta_prefix ++ lib.encode_meta meta)
            ++ (b'\n' ∷ (text_of_lines preamble ++ write_records recs)) =
        ap (λ t. t ++ write_records recs)
          (header_text lib.encode_meta lib.decode_meta lib.rfc3339 meta codec fits)
        ∙ line_first (tsv_meta_prefix ++ lib.encode_meta meta) (write_records recs) preamble in
      rw (shape, cut_line-append (tsv_meta_prefix ++ lib.encode_meta meta) _ first, header_read)
        (ap (payload meta) (
          skip_lines preamble (write_records recs) (
            (λ rest. skip_comment (codes " COMPLIANCE AUDIT RECORD: dtreesync") rest comment.1),
            (
              (λ rest. skip_comment (codes " SOURCE_BASE: " ++ meta.base_folder) rest base.1),
              (
                (λ rest.
                    skip_comment (codes " TIMESTAMP_UTC: " ++ lib.rfc3339 meta.created_at) rest
                      time.1),
                (skip_column_header, tt),
              ),
            ),
          )
          ∙ skip_records recs h))

  -- A TSV snapshot as the writer leaves it is accepted as it is, if its records are ones that a row can
  -- hold and their paths are in normal form, and the header has no digest or that of the rows.
  pub written-IsIntact :
      (recs : List DirRecord)
      → All IsInOrder recs
      → IsDigest meta.payload_sha256 (lib.sha256 (write_records recs))
      → IsIntact lib FormatType.tsv (record {
        text = write_header lib.encode_meta lib.rfc3339 meta ++ write_records recs;
        broken = false;
      })
  written-IsIntact recs h d = record {
    meta = meta;
    rows = write_records recs;
    opens = opens_written recs (fits-All recs h);
    whole = refl;
    digest = d;
    sound = rw (scan_lines-write_records recs) (unfold judge_line in rows-IsSound recs h);
  }

-- A TSV snapshot as the writer leaves it, compressed or not, is verified without an error, if its
-- columns are ones that a row can hold and their paths are in normal form, and the header has no
-- digest or that of the rows. The result counts the rows; where the header has another positive number of
-- directories, the result lists that as its one message, still without an error. Whether an ACL is
-- hexadecimal plays no part.
pub verify-written :
    (lib : Library) (tools : Tools) (store : Store) (cfg : VerifyConfig) (input : Text)
    (meta : BackupMetadata) (recs : List DirRecord)
    → IsCodec lib.encode_meta lib.decode_meta meta
    → IsHeader lib.encode_meta lib.rfc3339 meta
    → All IsInOrder recs
    → IsDigest meta.payload_sha256 (lib.sha256 (write_records recs))
    → chosen_format cfg ≡ FormatType.tsv
    → open_input store cfg.reader cfg.source_url ≡ ok input
    → unpacked tools (chosen_compression cfg) input
      ≡ some (record {
        text = write_header lib.encode_meta lib.rfc3339 meta ++ write_records recs;
        broken = false;
      })
    → (r : VerifyResult) × (verify lib tools store cfg ≡ ok (r, none))
      × (r.record_count ≡ length recs)
      × (r.errors ≡ issue_if (miscounted meta.folder_count (length recs)) count_mismatch)
verify-written lib tools store cfg input meta recs codec fits h d is_tsv opens found =
    let accepted : IsAccepted lib (chosen_format cfg)
        (unpacked tools (chosen_compression cfg) input) =
      (
        _,
        found,
        rw is_tsv (unfold detect_format in written-IsIntact lib meta codec fits recs h d),
      ) in
    let (r, e) = (verify-IsAccepted lib tools store cfg input (rw is_tsv) opens).1 accepted in
    let (number, listed) =
      verify-count lib tools store cfg input meta _ recs r h d is_tsv opens found
        (opens_written lib meta codec fits recs (fits-All recs h)) e in
    (r, e, number, listed)
