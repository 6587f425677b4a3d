-- ===== src/Core/Verify/Counted.antt =====
-- internal/core/verify.go: what the result of a verified TSV snapshot says of the number of its rows.
use dtreesync.Base.{
  Text, Bool, true, false, none, some, List, [], ◌∷◌, ◌≡◌, refl, sym, ◌∙◌, ap, text_eq, nat_eq,
  length, map, All, arith, not_leb,
}
use dtreesync.Format.Lines.{scan_lines}
use dtreesync.Format.Tsv.{write_records}
use dtreesync.Format.Tsv.Row.{line_of}
use dtreesync.Format.Tsv.Stream.{scan_lines-write_records}
use dtreesync.Model.Types.{
  BackupMetadata, DirRecord, FormatType, VerifyConfig, VerifyResult, count_mismatch, ok,
}
use dtreesync.Core.Library.{Library}
use dtreesync.Core.Source.{Store, is_compressed}
use dtreesync.Core.Verify.{
  Tools, Tally, count_verdict, inspect, payload, open_payload, judge_line, judge_tsv, issue_if,
  flagged, miscounted, reconcile, verify_opened, detect_format, verify_stream, verify_unpacked,
  verify_input, verify, chosen_format, chosen_compression, unpacked, open_input, fresh_result,
}
use dtreesync.Core.Verify.Sound.{IsClear, IsDigest, matches_digest_iff, inspect-IsClear}
use dtreesync.Core.Verify.Rows.{IsInOrder, judge_line_of, rows-IsSound}

inspect-count :
    (recs : List DirRecord)
    → All IsInOrder recs
    → (inspect judge_tsv (map line_of recs)).count ≡ length recs
unfolding inspect count_verdict
inspect-count [] _ = refl
inspect-count (rec ∷ recs) ((h, k), hs) =
    rw (not_leb _ _ h.fits, judge_line_of rec h k) (ground (arith, inspect-count recs hs))

flagged_result : (failed : Bool) (r : VerifyResult) → (flagged failed r).0 ≡ r
flagged_result true r = refl
flagged_result false r = refl

-- The errors that a stream in order leaves: that of the count at most.
reconciled :
    (lib : Library) (tools : Tools) (meta : BackupMetadata) (text : Text) (t : Tally)
    (r : VerifyResult)
    → IsClear t
    → IsDigest meta.payload_sha256 (lib.sha256 text)
    → r.errors ≡ []
    → ((reconcile lib tools meta text false t r).0.record_count ≡ t.count)
      × ((reconcile lib tools meta text false t r).0.errors
          ≡ issue_if (miscounted meta.folder_count t.count) count_mismatch)
unfolding reconcile
reconciled lib tools meta text t r (quiet, on) d e =
    let m = (matches_digest_iff meta.payload_sha256 (lib.sha256 text)).1 d in
    rw (quiet, on, m, e)
      (ap (λ x. x.record_count) (flagged_result _ _), ap (λ x. x.errors) (flagged_result _ _))

module _ (lib : Library) (tools : Tools) (store : Store) (cfg : VerifyConfig) (input : Text) where
  -- The result before the lines are read.
  abbrev started : VerifyResult
  started = record (fresh_result cfg.source_url FormatType.tsv (chosen_compression cfg)) {
    compression = is_compressed (chosen_compression cfg) input;
    format = FormatType.tsv;
  }

  verify_reconciled :
      (meta : BackupMetadata) (text rows : Text)
      → chosen_format cfg ≡ FormatType.tsv
      → open_input store cfg.reader cfg.source_url ≡ ok input
      → unpacked tools (chosen_compression cfg) input
        ≡ some (record { text = text; broken = false })
      → open_payload lib FormatType.tsv text ≡ payload meta rows
      → verify lib tools store cfg
        ≡ ok (reconcile lib tools meta rows false (inspect judge_tsv (scan_lines rows)) started)
  unfolding verify verify_input verify_unpacked verify_stream verify_opened detect_format judge_line
  verify_reconciled meta text rows is_tsv opens found opened =
      rw (is_tsv, opens, found, opened) refl

  -- The result of a verification that gives no error counts the rows, and lists no error but that the
  -- header has another number.
  pub verify-count :
      (meta : BackupMetadata) (text : Text) (recs : List DirRecord) (r : VerifyResult)
      → All IsInOrder recs
      → IsDigest meta.payload_sha256 (lib.sha256 (write_records recs))
      → chosen_format cfg ≡ FormatType.tsv
      → open_input store cfg.reader cfg.source_url ≡ ok input
      → unpacked tools (chosen_compression cfg) input
        ≡ some (record { text = text; broken = false })
      → open_payload lib FormatType.tsv text ≡ payload meta (write_records recs)
      → verify lib tools store cfg ≡ ok (r, none)
      → (r.record_count ≡ length recs)
        × (r.errors ≡ issue_if (miscounted meta.folder_count (length recs)) count_mismatch)
  verify-count meta text recs r h d is_tsv opens found opened e =
      let rows = write_records recs in
      let t = inspect judge_tsv (scan_lines rows) in
      let lines = scan_lines-write_records recs in
      let clear : IsClear t =
        rw lines ((inspect-IsClear judge_tsv (map line_of recs)).1 (rows-IsSound recs h)) in
      let count : t.count ≡ length recs = rw lines (inspect-count recs h) in
      let q = reconciled lib tools meta rows t started clear d refl in
      let out = verify_reconciled meta text rows is_tsv opens found opened in
      let same : reconcile lib tools meta rows false t started ≡ (r, none) = cc (e, out) in
      (
        ap (λ x. x.0.record_count) (sym same) ∙ q.0 ∙ count,
        ap (λ x. x.0.errors) (sym same)
            ∙ q.1
            ∙ ap (λ n. issue_if (miscounted meta.folder_count n) count_mismatch) count,
      )
